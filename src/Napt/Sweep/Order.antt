-- ===== src/Napt/Sweep/Order.antt =====
-- The order of the heap of nat.rs, and the entries of it that are due.
use warren_sdk_rs.Prelude.{
  ℕ, ◌≡◌, refl, inl, inr, Bool, true, false, not, ◌&&◌, ◌||◌, List, [], ◌∷◌, arith, ltb, leb, ◌==◌,
  Bool-cases,
}
use warren_sdk_rs.Napt.Table.{heap_push}

-- The heap is in the order of its times, as the pops of the binary heap are.
unfoldable pub all_later : ℕ → List (ℕ × ℕ) → Bool
all_later t [] = true
all_later t ((t', id) ∷ heap) = leb t t' && all_later t heap

unfoldable pub is_ordered : List (ℕ × ℕ) → Bool
unfolding all_later
is_ordered [] = true
is_ordered ((t, id) ∷ heap) = all_later t heap && is_ordered heap

-- The heap has an entry for the mapping whose time has come.
unfoldable pub is_called : ℕ → ℕ → List (ℕ × ℕ) → Bool
is_called now k [] = false
is_called now k ((t, id) ∷ heap) = (not (ltb now t) && (id == k)) || is_called now k heap

all_later-heap_push :
    (u t id : ℕ) (heap : List (ℕ × ℕ))
    → all_later u (heap_push (t, id) heap) ≡ (leb u t && all_later u heap)
unfolding all_later heap_push
all_later-heap_push u t id [] = refl
all_later-heap_push u t id ((t', id') ∷ heap) = ground (arith, all_later-heap_push u t id heap)

all_later_trans :
    (u t : ℕ) (heap : List (ℕ × ℕ))
    → leb u t ≡ true
    → all_later t heap ≡ true
    → all_later u heap ≡ true
unfolding all_later
all_later_trans u t [] a b = refl
all_later_trans u t ((t', id) ∷ heap) a b = ground (arith, a, b, all_later_trans u t heap a)

pub heap_push-is_ordered :
    (t id : ℕ) (heap : List (ℕ × ℕ))
    → is_ordered heap ≡ true
    → is_ordered (heap_push (t, id) heap) ≡ true
unfolding is_ordered heap_push all_later
heap_push-is_ordered t id [] o = refl
heap_push-is_ordered t id ((t', id') ∷ heap) o =
    let rest : all_later t' heap ≡ true = ground (arith, o) in
    let tail : is_ordered heap ≡ true = ground (arith, o) in
    elim (Bool-cases (ltb t t' || ((t == t') && leb id id'))) [
      | inl f ↦
          let first : leb t t' ≡ true = ground (arith, f) in
          ground (arith, f, first, rest, tail, all_later_trans t t' heap first rest)
      | inr f ↦
          let second : leb t' t ≡ true = ground (arith, f) in
          ground (
            arith,
            f,
            second,
            rest,
            all_later-heap_push t' t id heap,
            heap_push-is_ordered t id heap tail,
          )
    ]

pub is_called-heap_push :
    (now k t id : ℕ) (heap : List (ℕ × ℕ))
    → ltb now t ≡ true
    → is_called now k (heap_push (t, id) heap) ≡ is_called now k heap
unfolding is_called heap_push
is_called-heap_push now k t id [] e = ground (arith, e)
is_called-heap_push now k t id ((t', id') ∷ heap) e =
    ground (arith, e, is_called-heap_push now k t id heap e)

-- Nothing is called by a heap whose times all lie ahead.
pub is_called-later :
    (now k t : ℕ) (heap : List (ℕ × ℕ))
    → ltb now t ≡ true
    → all_later t heap ≡ true
    → is_called now k heap ≡ false
unfolding is_called all_later
is_called-later now k t [] e l = refl
is_called-later now k t ((t', id) ∷ heap) e l = ground (arith, e, l, is_called-later now k t heap e)
