-- ===== src/Napt/Sweep.antt =====
-- `sweep` of nat.rs: the mappings past their deadline are forgotten.
pub mod Termination
pub mod Expiry
pub mod Order
pub mod Round
pub mod Forgets
use warren_sdk_rs.Prelude.{ℕ, zero, suc, ◌+◌, Option, none, some, List, [], ◌∷◌, ltb, if◌then◌else◌}
use warren_sdk_rs.Prelude.Map.{nat_eq, lookup}
use warren_sdk_rs.Napt.Types.{Napt}
use warren_sdk_rs.Napt.Flow.{deadline_of}
use warren_sdk_rs.Napt.Table.{heap_push, remove_mapping}

module _ {R T : Type 0} where
  -- One round of the loop, for the entry at the top of the heap: the state, and the mappings removed.
  unfoldable pub sweep_entry : Napt R T → ℕ → ℕ → List (ℕ × ℕ) → ℕ × Napt R T
  sweep_entry n now id rest =
      let n1 = record n { expiry = rest } in
      elim (lookup id n1.mappings) [
        | none ↦ (0, n1)
        | some m ↦
            let real = deadline_of n1.config m in
            if ltb now real
            then (0, record n1 { expiry = heap_push (real, id) n1.expiry })
            else (1, remove_mapping n1 id)
      ]

  -- The loop, for at most `fuel` rounds; `none` says that these were not enough.
  unfoldable pub sweep_rounds : ℕ → Napt R T → ℕ → Option (ℕ × Napt R T)
  sweep_rounds zero n now = none
  sweep_rounds (suc fuel) n now = elim n.expiry [
    | [] ↦ some (0, n)
    | (deadline, id) ∷ rest ↦
        let (removed, n1) = sweep_entry n now id rest in
        let further = sweep_rounds fuel n1 now in
        if ltb now deadline
        then some (0, n)
        else (elim further [ none ↦ none | some (more, n2) ↦ some (removed + more, n2) ])
  ]
