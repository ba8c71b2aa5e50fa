-- ===== src/Plan/Peers/Overlap.antt =====
-- crates/warren-bolthole-core/src/plan.rs: the overlap of two networks, and the plans that are built.
use warren_sdk_rs.Prelude.{
  ℕ, ◌-◌, ◌^◌, ◌≤◌, ◌<◌, true, ◌≡◌, ◌↔◌, sym, ◌∙◌, subst, inl, inr, ◌⊎◌, Bool-cases, ltb, leb,
  arith, ltb→lt,
}
use warren_sdk_rs.Prelude.Outcomes.{Result, ok, err}
use warren_sdk_rs.Plan.{
  in_net, Networks, net4, net6, PlanError, tunnel_pool_overlap, subnet_too_small,
}
use warren_sdk_rs.Plan.Prefixes.{same, same_coarser, in_net_lem, Lawful}
use warren_sdk_rs.Plan.Peers.{
  overlaps, overlaps_tunnel_pool, tunnel_pool_v4, tunnel_pool_v6, PeerPlan, new,
}

-- An address that two networks share.
pub record Shared (w : ℕ) (x y : ℕ × ℕ) : Type 0 where
  pub address : ℕ
  pub fits : address < 2 ^ w
  pub in_first : in_net w address x ≡ true
  pub in_second : in_net w address y ≡ true

swap : (w : ℕ) (x y : ℕ × ℕ) → Shared w x y → Shared w y x
swap w x y s = record {
  address = s.address;
  fits = s.fits;
  in_first = s.in_second;
  in_second = s.in_first;
}

in_net_itself : (w b l : ℕ) → in_net w b (b, l) ≡ true
unfolding in_net
in_net_itself w b l = ground arith

-- Where the first network has the shorter prefix, it has the base of the second.
Shared-base :
    (w b l c m : ℕ)
    → b < 2 ^ w
    → l ≤ m
    → c < 2 ^ w
    → m ≤ w
    → Shared w (b, l) (c, m)
    → in_net w c (b, l) ≡ true
unfolding same
Shared-base w b l c m hb h hc hm s =
    let second : same w m s.address c ≡ true =
      sym (in_net_lem w m s.address c hm s.fits hc) ∙ s.in_second in
    let both : same w l s.address c ≡ true =
      same_coarser (m - l) w l s.address c (omega (arith, h, hm))
        (subst (λ (t : ℕ). same w t s.address c ≡ true) (omega (arith, h)) second) in
    let first : same w l s.address b ≡ true =
      sym (in_net_lem w l s.address b (omega (arith, h, hm)) s.fits hb) ∙ s.in_first in
    in_net_lem w l c b (omega (arith, h, hm)) hc hb ∙ ground (arith, both, first)

module _ (w b l c m : ℕ) (hb : b < 2 ^ w) (hl : l ≤ w) (hc : c < 2 ^ w) (hm : m ≤ w) where
  overlaps-Shared_to : overlaps w (b, l) (c, m) ≡ true → Shared w (b, l) (c, m)
  unfolding overlaps
  overlaps-Shared_to h = elim (Bool-cases (in_net w b (c, m))) [
    | inl e ↦ record { address = b; fits = hb; in_first = in_net_itself w b l; in_second = e }
    | inr e ↦ record {
      address = c;
      fits = hc;
      in_first = ground (arith, e, h);
      in_second = in_net_itself w c m;
    }
  ]

  Shared-overlaps : Shared w (b, l) (c, m) → overlaps w (b, l) (c, m) ≡ true
  unfolding overlaps
  Shared-overlaps s = elim (Bool-cases (leb l m)) [
    | inl e ↦ ground (arith, Shared-base w b l c m hb (ground (arith, e)) hc hm s)
    | inr e ↦
        ground (arith, Shared-base w c m b l hc (ground (arith, e)) hb hl (swap w (b, l) (c, m) s))
  ]

  -- Two networks overlap, by the source's test, exactly where they share an address.
  pub overlaps-Shared : (overlaps w (b, l) (c, m) ≡ true) ↔ Shared w (b, l) (c, m)
  overlaps-Shared = (overlaps-Shared_to, Shared-overlaps)

module _ {N4 N6 : Type 0} (ip4 : Networks N4) (ip6 : Networks N6) where
  abbrev pub shape4 : N4 → ℕ × ℕ
  shape4 net = (ip4.network_address net, ip4.netmask net)

  abbrev pub shape6 : N6 → ℕ × ℕ
  shape6 net = (ip6.network_address net, ip6.netmask net)

  -- What `new` makes of one network of each family.
  pub data Built (n4 : N4) (n6 : N6) : Result (PeerPlan N4 N6) PlanError → Type 0 where
    built :
        ip4.netmask n4 ≤ 30
        → ¬ Shared 32 (shape4 n4) tunnel_pool_v4
        → ¬ Shared 128 (shape6 n6) tunnel_pool_v6
        → Built n4 n6 (ok (record { subnet_v4 = n4; subnet_v6 = n6 }))
    too_small : 30 < ip4.netmask n4 → Built n4 n6 (err subnet_too_small)
    collides :
        ip4.netmask n4 ≤ 30
        → Shared 32 (shape4 n4) tunnel_pool_v4 ⊎ Shared 128 (shape6 n6) tunnel_pool_v6
        → Built n4 n6 (err tunnel_pool_overlap)

  module _ (lawful4 : Lawful 32 ip4) (lawful6 : Lawful 128 ip6) where
    pub shared4 :
        (n4 : N4)
        → (overlaps_tunnel_pool ip4 ip6 (net4 n4) ≡ true) ↔ Shared 32 (shape4 n4) tunnel_pool_v4
    unfolding overlaps_tunnel_pool
    shared4 n4 =
        let h = lawful4.valid n4 in
        overlaps-Shared 32 (ip4.network_address n4) (ip4.netmask n4) 0x0a420000 16 h.low h.short
          (omega arith) (omega arith)

    pub shared6 :
        (n6 : N6)
        → (overlaps_tunnel_pool ip4 ip6 (net6 n6) ≡ true) ↔ Shared 128 (shape6 n6) tunnel_pool_v6
    unfolding overlaps_tunnel_pool
    shared6 n6 =
        let h = lawful6.valid n6 in
        overlaps-Shared 128 (ip6.network_address n6) (ip6.netmask n6)
          0xfdcc000f000100000000000000000000 64 h.low h.short (omega arith) (omega arith)

    -- A plan is built exactly where the IPv4 subnet leaves at least two bits for the hosts and neither
    -- subnet shares an address with the range that an exit assigns from; each refusal names the
    -- condition that failed.
    pub new-Built : (n4 : N4) (n6 : N6) → Built n4 n6 (new ip4 ip6 (net4 n4) (net6 n6))
    unfolding new
    new-Built n4 n6 = elim (Bool-cases (ltb 30 (ip4.netmask n4))) [
      | inl e ↦ rw (new, e) (too_small (ltb→lt 30 _ e))
      | inr e ↦ elim (Bool-cases (overlaps_tunnel_pool ip4 ip6 (net4 n4))) [
        | inl f ↦ rw (new, e, f) (collides (ground (arith, e)) (inl ((shared4 n4).0 f)))
        | inr f ↦ elim (Bool-cases (overlaps_tunnel_pool ip4 ip6 (net6 n6))) [
          | inl g ↦ rw (new, e, f, g) (collides (ground (arith, e)) (inr ((shared6 n6).0 g)))
          | inr g ↦
              rw (new, e, f, g)
                (built (ground (arith, e)) (λ s. ground (arith, f, (shared4 n4).1 s))
                  (λ s. ground (arith, g, (shared6 n6).1 s)))
        ]
      ]
    ]
