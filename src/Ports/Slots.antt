-- ===== src/Ports/Slots.antt =====
-- How many slots point into the free list.
use warren_sdk_rs.Prelude.{
  ℕ, zero, suc, ◌+◌, ◌≤◌, ◌≡◌, List, [], ◌∷◌, some, arith, ◌==◌, if◌then◌else◌, length, get_elem?,
  set,
}
use warren_sdk_rs.Ports.{taken}

abbrev pub weight : ℕ → ℕ
weight s = if s == taken then 0 else 1

unfoldable pub free_slots : List ℕ → ℕ
free_slots [] = 0
free_slots (s ∷ slot) = weight s + free_slots slot

pub free_slots-le : (slot : List ℕ) → free_slots slot ≤ length slot
unfolding free_slots
free_slots-le [] = omega arith
free_slots-le (s ∷ slot) = ground (arith, free_slots-le slot)

pub free_slots-set :
    (slot : List ℕ) (i s v : ℕ)
    → get_elem? slot i ≡ some s
    → free_slots (set slot i v) + weight s ≡ free_slots slot + weight v
unfolding free_slots get_elem? set
free_slots-set [] i s v h = ground arith
free_slots-set (x ∷ slot) zero s v h = ground arith
free_slots-set (x ∷ slot) (suc i) s v h = ground (arith, free_slots-set slot i s v)
