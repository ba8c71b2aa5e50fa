-- ===== src/Napt/Sweep/Round.antt =====
-- What one round of the loop of `sweep` in nat.rs leaves.
use warren_sdk_rs.Prelude.{
  ℕ, ◌≡◌, ◌∙◌, refl, ap, sym, inl, inr, Bool, true, false, ◌&&◌, ◌||◌, Option, none, some, List,
  arith, ltb, ◌==◌, ==_iff, if◌then◌else◌, Option-cases, Bool-cases,
}
use warren_sdk_rs.Prelude.Map.{nat_eq, lookup}
use warren_sdk_rs.Napt.Types.{NatConfig, Napt}
use warren_sdk_rs.Napt.Flow.{deadline_of}
use warren_sdk_rs.Napt.Sweep.{sweep_entry}
use warren_sdk_rs.Napt.Sweep.Expiry.{expired_of, expired, IsRecent, sweep_entry-identity}
use warren_sdk_rs.Napt.Sweep.Termination.{remove_mapping-clock}
use warren_sdk_rs.Napt.Identity.{Identity, identity_at}
use warren_sdk_rs.Napt.Sweep.Order.{
  is_ordered, is_called, heap_push-is_ordered, is_called-heap_push,
}

module _ (config : NatConfig) (now : ℕ) where
  -- What is forgotten: a mapping that is idle, where its entry is called.
  abbrev pub swept : Bool → Option Identity → Option Identity
  swept called x = if expired_of config now x && called then none else x

  -- A round and the rounds after it, for a mapping that is the round's or another.
  pub swept-swept :
      (same called : Bool) (x : Option Identity)
      → swept called (swept same x) ≡ swept (same || called) x
  unfolding expired_of
  swept-swept true called x = elim (Bool-cases (expired_of config now x)) [
    | inl e ↦ ground (arith, e)
    | inr e ↦ ground (arith, e)
  ]
  swept-swept false called x = ground arith

recalled :
    (gone : Bool) (x : Option Identity) (i : Identity)
    → (if gone then none else x) ≡ some i
    → x ≡ some i
recalled true x i e = absurd (ground (arith, e))
recalled false x i e = e

module _ {R T : Type 0} where
  -- What a round leaves of the heap and of the timeouts.
  pub record Next (now : ℕ) (rest : List (ℕ × ℕ)) (config : NatConfig) (n : Napt R T) : Type 0 where
    pub timeouts : n.config ≡ config
    pub ordered : is_ordered rest ≡ true → is_ordered n.expiry ≡ true
    pub calls : (k : ℕ) → is_called now k n.expiry ≡ is_called now k rest

  pub sweep_entry-Next :
      (n : Napt R T) (now id : ℕ) (rest : List (ℕ × ℕ))
      → Next now rest n.config (sweep_entry n now id rest).1
  unfolding sweep_entry
  sweep_entry-Next n now id rest = elim (Option-cases (lookup id n.mappings)) [
    | inl e ↦ rw (e, sweep_entry) (record { timeouts = refl; ordered = λ o. o; calls = λ k. refl })
    | inr (m, e) ↦
        let real = deadline_of n.config m in
        elim (Bool-cases (ltb now real)) [
          | inl later ↦
              rw (e, later, sweep_entry)
                (record {
                  timeouts = refl;
                  ordered = heap_push-is_ordered real id rest;
                  calls = λ k. is_called-heap_push now k real id rest later;
                })
          | inr passed ↦
              let same = remove_mapping-clock (record n { expiry = rest }) id in
              rw (e, passed, sweep_entry)
                (record {
                  timeouts = ap (λ c. c.1) same;
                  ordered = λ o. ap (λ c. is_ordered c.0) same ∙ o;
                  calls = λ k. ap (λ c. is_called now k c.0) same;
                })
        ]
  ]

  -- What a round does to any mapping.
  pub sweep_entry-swept :
      (n : Napt R T) (now id : ℕ) (rest : List (ℕ × ℕ)) (k : ℕ)
      → IsRecent n now id
      → identity_at (sweep_entry n now id rest).1 k ≡ swept n.config now (id == k) (identity_at n k)
  sweep_entry-swept n now id rest k recent =
      let e = sweep_entry-identity n now id rest k recent in
      elim (Bool-cases (id == k)) [
        | inr f ↦ ground (arith, e, f)
        | inl f ↦
            let same : id ≡ k = (==_iff id k).0 f in
            let there : expired n now id ≡ expired n now k = ap (expired n now) same in
            ground (arith, e, f, there)
      ]

  pub swept-IsRecent :
      (n n1 : Napt R T) (now k : ℕ) (called : Bool)
      → identity_at n1 k ≡ swept n.config now called (identity_at n k)
      → IsRecent n now k
      → IsRecent n1 now k
  swept-IsRecent n n1 now k called e recent i f p =
      recent i (recalled (expired n now k && called) (identity_at n k) i (sym e ∙ f)) p
