-- ===== src/Napt/Sweep/Termination.antt =====
-- The loop of `sweep` ends, and leaves nothing that is due at the top of the heap.
use warren_sdk_rs.Prelude.{
  ℕ, zero, suc, ◌+◌, ◌<◌, ◌≡◌, ◌⊎◌, refl, ap, subst, inl, inr, Bool, true, false, Option, none,
  some, List, [], ◌∷◌, arith, ltb, if◌then◌else◌, Option-cases, Bool-cases,
}
use warren_sdk_rs.Prelude.Map.{nat_eq, lookup}
use warren_sdk_rs.Napt.Types.{MapProto, NatConfig, Napt}
use warren_sdk_rs.Napt.Flow.{deadline_of}
use warren_sdk_rs.Napt.Recency.{update, unlink_older, unlink_newer, unlink}
use warren_sdk_rs.Napt.Table.{heap_push, drop_mapping, remove_mapping}
use warren_sdk_rs.Napt.Sweep.{sweep_entry, sweep_rounds}

-- The entries whose time has come.
unfoldable pub due : ℕ → List (ℕ × ℕ) → ℕ
due now [] = 0
due now ((t, id) ∷ heap) = if ltb now t then due now heap else suc (due now heap)

due-heap_push :
    (now t id : ℕ) (heap : List (ℕ × ℕ))
    → ltb now t ≡ true
    → due now (heap_push (t, id) heap) ≡ due now heap
unfolding due heap_push
due-heap_push now t id [] e = ground (arith, e)
due-heap_push now t id ((t', id') ∷ heap) e = ground (arith, e, due-heap_push now t id heap e)

pub fewer_due :
    (fuel now t id : ℕ) (rest : List (ℕ × ℕ)) {left : ℕ}
    → left ≡ due now rest
    → due now ((t, id) ∷ rest) < suc fuel
    → ltb now t ≡ false
    → left < fuel
unfolding due
fewer_due fuel now t id rest a b c = ground (arith, a, b, c)

pub heap_cases :
    (heap : List (ℕ × ℕ))
    → (heap ≡ []) ⊎ ((t : ℕ) × (id : ℕ) × (rest : List (ℕ × ℕ)) × (heap ≡ (t, id) ∷ rest))
heap_cases [] = inl refl
heap_cases ((t, id) ∷ rest) = inr (t, id, rest, refl)

-- Nothing on top of the heap is due.
unfoldable pub top_later : ℕ → List (ℕ × ℕ) → Bool
top_later now [] = true
top_later now ((t, id) ∷ heap) = ltb now t

module _ {R T : Type 0} where
  -- The heap and the timeouts.
  abbrev pub clock : Napt R T → List (ℕ × ℕ) × NatConfig
  clock n = (n.expiry, n.config)

  unlink_older-clock :
      (n : Napt R T) (key : ℕ × MapProto) (older newer : Option ℕ)
      → clock (unlink_older n key older newer).0 ≡ clock n
  unfolding unlink_older
  unlink_older-clock n key (some o) newer = refl
  unlink_older-clock n key none newer = ground arith

  unlink_newer-clock :
      (n : Napt R T) (key : ℕ × MapProto) (older newer : Option ℕ)
      → clock (unlink_newer n key older newer) ≡ clock n
  unfolding unlink_newer
  unlink_newer-clock n key older (some next) = refl
  unlink_newer-clock n key older none = ground arith

  unlink-clock : (n : Napt R T) (id : ℕ) → clock (unlink n id) ≡ clock n
  unfolding unlink
  unlink-clock n id = elim (Option-cases (lookup id n.mappings)) [
    | inl e ↦ rw (e, unlink) refl
    | inr (m, e) ↦
        let key : ℕ × MapProto = (m.owner, m.proto) in
        let n1 : Napt R T = update id (λ m. record m { older = none; newer = none }) n in
        rw (e, unlink)
          (ground (
            arith,
            unlink_older-clock n1 key m.older m.newer,
            unlink_newer-clock (unlink_older n1 key m.older m.newer).0 key m.older m.newer,
          ))
  ]

  pub remove_mapping-clock : (n : Napt R T) (id : ℕ) → clock (remove_mapping n id) ≡ clock n
  unfolding remove_mapping drop_mapping
  remove_mapping-clock n id = elim (Option-cases (lookup id (unlink n id).mappings)) [
    | inl e ↦ rw (e, remove_mapping) (unlink-clock n id)
    | inr (m, e) ↦ elim (Bool-cases m.pinned) [
      | inl p ↦ rw (e, p, remove_mapping) (unlink-clock n id)
      | inr p ↦ rw (e, p, remove_mapping) (unlink-clock n id)
    ]
  ]

  pub sweep_entry-due :
      (n : Napt R T) (now id : ℕ) (rest : List (ℕ × ℕ))
      → due now (sweep_entry n now id rest).1.expiry ≡ due now rest
  unfolding sweep_entry
  sweep_entry-due n now id rest = elim (Option-cases (lookup id n.mappings)) [
    | inl e ↦ rw (e, sweep_entry) refl
    | inr (m, e) ↦ elim (Bool-cases (ltb now (deadline_of n.config m))) [
      | inl later ↦ rw (e, later, sweep_entry) (due-heap_push now _ id rest later)
      | inr now' ↦
          rw (e, now', sweep_entry)
            (ap (λ c. due now c.0) (remove_mapping-clock (record n { expiry = rest }) id))
    ]
  ]

  -- The loop ended, and the heap it leaves is empty or has an entry on top whose time has not come.
  unfoldable pub Swept : ℕ → Option (ℕ × Napt R T) → Type 0
  unfolding top_later
  Swept now none = ⊥
  Swept now (some (removed, n)) = top_later now n.expiry ≡ true

  counted :
      (now removed : ℕ) (r : Option (ℕ × Napt R T))
      → Swept now r
      → Swept now (elim r [ none ↦ none | some (more, n) ↦ some (removed + more, n) ])
  unfolding Swept
  counted now removed (some (more, n)) s = s
  counted now removed none s = s

  -- With more fuel than the heap has entries that are due, the loop of `sweep` ends, and leaves a
  -- heap that is empty or has an entry on top that is not due.
  pub sweep_rounds-Swept :
      (fuel : ℕ) (n : Napt R T) (now : ℕ)
      → due now n.expiry < fuel
      → Swept now (sweep_rounds fuel n now)
  unfolding sweep_rounds Swept due
  sweep_rounds-Swept zero n now h = absurd (omega (arith, h))
  sweep_rounds-Swept (suc fuel) n now h = elim (heap_cases n.expiry) [
    | inl e ↦ rw (e, sweep_rounds) (ground (arith, e))
    | inr (t, id, rest, e) ↦ elim (Bool-cases (ltb now t)) [
      | inl later ↦ rw (e, later, sweep_rounds) (ground (arith, e, later))
      | inr passed ↦
          let n1 = (sweep_entry n now id rest).1 in
          rw (e, passed, sweep_rounds)
            (counted now (sweep_entry n now id rest).0 (sweep_rounds fuel n1 now) (
              sweep_rounds-Swept fuel n1 now (
                fewer_due fuel now t id rest (sweep_entry-due n now id rest)
                  (subst (λ heap. due now heap < suc fuel) e h) passed)))
    ]
  ]
