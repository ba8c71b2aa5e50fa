-- ===== src/Tests/Choice.antt =====
-- The selections of selector.rs on three relays.
use warren_sdk_rs.Prelude.{
  ℕ, ◌+◌, ◌-◌, ◌<◌, ◌≤◌, Bool, true, false, none, some, List, [], ◌∷◌, ◌≡◌, refl, ltb, min, ◌^◌,
  if◌then◌else◌, arith,
}
use warren_sdk_rs.Prelude.Outcomes.{ok}
use warren_sdk_rs.Ip.{v4, socket_addr}
use warren_sdk_rs.Discovery.{Relay, any_query}
use warren_sdk_rs.Discovery.Selector.{select_with_rng, filter, is_candidate}
use warren_sdk_rs.Discovery.Weighted.{Chosen, scores, select_with_rng-Chosen, select_with_rng-share}

abbrev exit_of : ℕ → ℕ → Bool → Relay
exit_of name weight active = record {
  endpoint_id = name ∷ [];
  exit_id = name ∷ [];
  addrs = socket_addr (v4 (10 ∷ 0 ∷ 0 ∷ name ∷ [])) 443 ∷ [];
  location = record { country_code = 0x4e ∷ 0x4c ∷ []; city = [] };
  weight = weight;
  active = active;
  ipv6_egress = false;
  cover_domain = none;
  port_forward = none;
  tcp_fallback = none;
}

abbrev exits : List Relay
exits = exit_of 1 10 false ∷ exit_of 2 30 true ∷ exit_of 3 70 true ∷ []

-- A generator whose draw is its state where that is below the bound, and 0 else.
abbrev draw_of : ℕ → ℕ → ℕ × ℕ
draw_of rng total = ((if ltb rng total then rng else 0), rng + 1)

draw_below : (rng total : ℕ) → 0 < total → (draw_of rng total).0 < total
draw_below rng total h = ground (arith, h)

select_with_rng-Chosen_example :
    Chosen any_query exits (select_with_rng draw_of exits any_query 42).0
select_with_rng-Chosen_example = select_with_rng-Chosen draw_of exits any_query 42 draw_below

candidates : filter (is_candidate any_query) exits ≡ exit_of 2 30 true ∷ exit_of 3 70 true ∷ []
unfolding filter is_candidate any_query
candidates = refl

low_end :
    scores (λ (r : Relay). r.weight) (exit_of 2 30 true ∷ [])
    ≤ (draw_of 42 (
        min
          (scores (λ (r : Relay). r.weight) (exit_of 2 30 true ∷ exit_of 3 70 true ∷ []))
          (2 ^ 64 - 1))).0
unfolding scores
low_end = omega arith

high_end :
    (draw_of 42 (
      min
        (scores (λ (r : Relay). r.weight) (exit_of 2 30 true ∷ exit_of 3 70 true ∷ []))
        (2 ^ 64 - 1))).0
    < scores (λ (r : Relay). r.weight) (exit_of 2 30 true ∷ []) + 70
unfolding scores
high_end = omega arith

select_with_rng-share_example :
    (select_with_rng draw_of exits any_query 42).0 ≡ some (ok (exit_of 3 70 true))
select_with_rng-share_example =
    select_with_rng-share draw_of exits any_query 42 (exit_of 2 30 true ∷ []) (exit_of 3 70 true) []
      candidates low_end high_end
