-- ===== src/Discovery/Weighted.antt =====
-- crates/warren-discovery/src/selector.rs: the choice by weight.
use warren_sdk_rs.Prelude.{
  ℕ, zero, suc, ◌+◌, ◌-◌, ◌^◌, ◌≤◌, ◌<◌, min, Bool, true, false, Option, some, List, [], ◌∷◌, ◌++◌,
  ◌≡◌, refl, sym, ap, ◌∙◌, inl, inr, Bool-cases, arith, any, ltb, ◌==◌, get_elem?, length,
  length-append,
}
use warren_sdk_rs.Prelude.Outcomes.{Result, ok, err}
use warren_sdk_rs.Discovery.{Relay, ExitQuery}
use warren_sdk_rs.Discovery.Selector.{
  filter, select_with_rng, weighted_pick, pick, walk, total_from, saturating_add, is_candidate,
  SelectorError, no_relay_match,
}
use warren_sdk_rs.Discovery.First.{Split, split_cons}

module _ {ℓ} {A : Type ℓ} (score : A → ℕ) where
  -- The exact sum of the scores.
  unfoldable pub scores : List A → ℕ
  scores [] = 0
  scores (c ∷ cs) = score c + scores cs

  total_from-scores :
      (acc : ℕ) (cs : List A)
      → acc ≤ 2 ^ 64 - 1
      → total_from score acc cs ≡ min (acc + scores cs) (2 ^ 64 - 1)
  unfolding total_from scores saturating_add
  total_from-scores acc [] h = omega arith
  total_from-scores acc (c ∷ cs) h =
      omega (arith, total_from-scores (min (acc + score c) (2 ^ 64 - 1)) cs (omega arith))

  scores-append :
      (before : List A) (c : A) (after : List A)
      → scores (before ++ (c ∷ after)) ≡ scores before + (score c + scores after)
  unfolding scores
  scores-append [] c after = omega arith
  scores-append (b ∷ before) c after = omega (arith, scores-append before c after)

  walk-share :
      (before : List A) (c : A) (after : List A) (roll : ℕ)
      → scores before ≤ roll
      → roll < scores before + score c
      → walk score (before ++ (c ∷ after)) roll ≡ some c
  unfolding walk scores
  walk-share [] c after roll h h' = ground arith
  walk-share (b ∷ before) c after roll h h' =
      ground (arith, walk-share before c after (roll - score b) (omega arith) (omega arith))

  walk-some :
      (cs : List A) (roll : ℕ)
      → roll < scores cs
      → (c : A) × (i : ℕ) × (walk score cs roll ≡ some c) × (get_elem? cs i ≡ some c)
  unfolding scores get_elem? walk
  walk-some [] roll h = absurd (omega arith)
  walk-some (c ∷ cs) roll h = elim (Bool-cases (ltb roll (score c))) [
    | inl e ↦ (c, 0, rw e refl, refl)
    | inr e ↦
        let (d, i, w, g) = walk-some cs (roll - score c) (ground arith) in (d, suc i, rw e w, g)
  ]

module _ {ℓ} {A : Type ℓ} (test : A → Bool) where
  filter_keep : (x : A) (xs : List A) → test x ≡ true → filter test (x ∷ xs) ≡ x ∷ filter test xs
  unfolding filter
  filter_keep x xs h = rw h refl

  filter_drop : (x : A) (xs : List A) → test x ≡ false → filter test (x ∷ xs) ≡ filter test xs
  unfolding filter
  filter_drop x xs h = rw h refl

  filter-nil : (xs : List A) → filter test xs ≡ [] → any test xs ≡ false
  unfolding any filter
  filter-nil [] h = refl
  filter-nil (x ∷ xs) h = ground (arith, filter-nil xs)

  split_head : (y : A) (xs : List A) (x : A) → test y ≡ true → y ≡ x → Split test (y ∷ xs) x
  split_head y xs x e h = record {
    before = [];
    after = xs;
    parts = ap (λ (z : A). z ∷ xs) h;
    passes = sym (ap test h) ∙ e;
  }

  kept :
      (y : A) (ys xs : List A)
      → test y ≡ true
      → ((i : ℕ) (x : A) → get_elem? ys i ≡ some x → Split test xs x)
      → (i : ℕ) (x : A) → get_elem? (y ∷ ys) i ≡ some x
      → Split test (y ∷ xs) x
  unfolding get_elem?
  kept y ys xs e f zero x h = split_head y xs x e (ground arith)
  kept y ys xs e f (suc i) x h = split_cons y (f i x h)

  filter-Split :
      (xs : List A) (i : ℕ) (x : A) → get_elem? (filter test xs) i ≡ some x → Split test xs x
  unfolding filter get_elem?
  filter-Split [] i x h = absurd (ground arith)
  filter-Split (y ∷ xs) i x h = elim (Bool-cases (test y)) [
    | inl e ↦
        kept y (filter test xs) xs e (filter-Split xs) i x
          (ap (λ zs. get_elem? zs i) (sym (filter_keep y xs e)) ∙ h)
    | inr e ↦
        split_cons y
          (filter-Split xs i x (ap (λ zs. get_elem? zs i) (sym (filter_drop y xs e)) ∙ h))
  ]

-- What a weighted selection returns.
pub data Chosen (query : ExitQuery) (relays : List Relay)
    : Option (Result Relay SelectorError) → Type 0 where
  chosen :
      (relay : Relay)
      → Split (is_candidate query) relays relay
      → Chosen query relays (some (ok relay))
  no_candidate :
      any (is_candidate query) relays ≡ false → Chosen query relays (some (err no_relay_match))

module _ {ℓ κ} {A : Type ℓ} {R : Type κ} (score : A → ℕ) (gen_range : R → ℕ → ℕ × R) where
  -- A pick is one of the candidates, where the draws are below their bounds.
  pick-some :
      (c : A) (cs : List A) (rng : R)
      → ((rng : R) (total : ℕ) → 0 < total → (gen_range rng total).0 < total)
      → (d : A) × (i : ℕ) × ((pick score gen_range (c ∷ cs) rng).0 ≡ some d)
        × (get_elem? (c ∷ cs) i ≡ some d)
  unfolding pick get_elem?
  pick-some c cs rng h =
      let total : ℕ = total_from score 0 (c ∷ cs) in
      elim (Bool-cases (total == 0)) [
        | inl e ↦ (c, 0, rw e refl, refl)
        | inr e ↦
            let below : (gen_range rng total).0 < scores score (c ∷ cs) =
              ground (arith, total_from-scores score 0 (c ∷ cs) (omega arith), h rng total) in
            let (d, i, w, g) = walk-some score (c ∷ cs) (gen_range rng total).0 below in
            (d, i, rw (e, w) refl, g)
      ]

  pick-share :
      (cs before : List A) (c : A) (after : List A) (rng : R)
      → cs ≡ before ++ (c ∷ after)
      → 0 < score c
      → scores score before ≤ (gen_range rng (total_from score 0 cs)).0
      → (gen_range rng (total_from score 0 cs)).0 < scores score before + score c
      → (pick score gen_range cs rng).0 ≡ some c
  unfolding pick
  pick-share cs before c after rng f p h h' =
      let roll : ℕ = (gen_range rng (total_from score 0 cs)).0 in
      let nonzero : (total_from score 0 cs == 0) ≡ false = ground (
        arith,
        total_from-scores score 0 cs (omega arith),
        ap (scores score) f,
        scores-append score before c after,
      ) in
      let found : walk score cs roll ≡ some c =
        ap (λ zs. walk score zs roll) f ∙ walk-share score before c after roll h h' in
      rw (nonzero, found) refl

module _ {κ} {R : Type κ} (gen_range : R → ℕ → ℕ × R) where
  Chosen-filter :
      (relays : List Relay) (query : ExitQuery) (rng : R) (candidates : List Relay)
      → ((rng : R) (total : ℕ) → 0 < total → (gen_range rng total).0 < total)
      → filter (is_candidate query) relays ≡ candidates
      → Chosen query relays (select_with_rng gen_range relays query rng).0
  unfolding select_with_rng weighted_pick
  Chosen-filter relays query rng [] h e =
      rw (select_with_rng, e) (no_candidate (filter-nil _ relays e))
  Chosen-filter relays query rng (c ∷ cs) h e =
      let (d, i, p, g) = pick-some (λ (r : Relay). r.weight) gen_range c cs rng h in
      rw (select_with_rng, e, weighted_pick, p)
        (chosen d (filter-Split _ relays i d (ap (λ zs. get_elem? zs i) e ∙ g)))

  -- Where each draw is below its bound, a weighted selection does not panic. It gives a relay of the
  -- list that has a positive weight and that the query matches, and it gives the error exactly where
  -- there is no such relay.
  pub select_with_rng-Chosen :
      (relays : List Relay) (query : ExitQuery) (rng : R)
      → ((rng : R) (total : ℕ) → 0 < total → (gen_range rng total).0 < total)
      → Chosen query relays (select_with_rng gen_range relays query rng).0
  select_with_rng-Chosen relays query rng h = Chosen-filter relays query rng _ h refl

  select_share :
      (relays : List Relay) (query : ExitQuery) (candidates : List Relay) (relay : Relay) (rng : R)
      → filter (is_candidate query) relays ≡ candidates
      → 0 < length candidates
      → (pick (λ (r : Relay). r.weight) gen_range candidates rng).0 ≡ some relay
      → (select_with_rng gen_range relays query rng).0 ≡ some (ok relay)
  unfolding select_with_rng weighted_pick
  select_share relays query [] relay rng e h p = absurd (omega arith)
  select_share relays query (c ∷ cs) relay rng e h p =
      rw (select_with_rng, e, weighted_pick, p) refl

  -- Each candidate has a share of the draws as large as its weight: a draw that lies between the sum
  -- of the weights of the candidates before it and that sum with its own weight gives the candidate.
  -- The bound of the draws is the sum of all weights, or the largest number of the machine where the
  -- sum passes it.
  pub select_with_rng-share :
      (relays : List Relay) (query : ExitQuery) (rng : R) (before : List Relay) (relay : Relay)
      (after : List Relay)
      → filter (is_candidate query) relays ≡ before ++ (relay ∷ after)
      → scores (λ (r : Relay). r.weight) before
        ≤ (gen_range rng
            (min (scores (λ (r : Relay). r.weight) (before ++ (relay ∷ after))) (2 ^ 64 - 1))).0
      → (gen_range rng
          (min (scores (λ (r : Relay). r.weight) (before ++ (relay ∷ after))) (2 ^ 64 - 1))).0
        < scores (λ (r : Relay). r.weight) before + relay.weight
      → (select_with_rng gen_range relays query rng).0 ≡ some (ok relay)
  select_with_rng-share relays query rng before relay after e h h' =
      let cs : List Relay = before ++ (relay ∷ after) in
      let total : total_from (λ (r : Relay). r.weight) 0 cs
          ≡ min (scores (λ (r : Relay). r.weight) cs) (2 ^ 64 - 1) =
        omega (arith, total_from-scores (λ (r : Relay). r.weight) 0 cs (omega arith)) in
      select_share relays query (before ++ (relay ∷ after)) relay rng e
        (omega (arith, length-append before (relay ∷ after)))
        (pick-share (λ (r : Relay). r.weight) gen_range _ before relay after rng refl
          (omega (arith, h, h')) (rw total h) (rw total h'))
