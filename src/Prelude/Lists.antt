-- ===== src/Prelude/Lists.antt =====
-- Vectors as lists, measured and indexed by native numbers.
use Prim.Native.Nat.{ℕ, zero, suc, ◌+◌, ◌-◌, ◌<◌, ◌≤◌}
use mathlib.Core.Path.{◌≡◌, refl, ap}
use mathlib.Core.Logic.{◌⊎◌, inl, inr}
use mathlib.Core.Bool.{Bool, false, ◌&&◌, ◌||◌}
use mathlib.Core.List.{List, [], ◌∷◌, ◌++◌}
use mathlib.Core.Option.{Option, none, some}
use native.Mathlib.Omega.{arith}
use warren_sdk_rs.Prelude.Tests.{ltb, ◌==◌, if◌then◌else◌}

module _ {ℓ} {A : Type ℓ} where
  abbrev pub length : List A → ℕ
  length [] = 0
  length (x ∷ xs) = suc (length xs)

  -- `slice::get`.
  unfoldable pub get_elem? : List A → ℕ → Option A
  get_elem? [] i = none
  get_elem? (x ∷ xs) zero = some x
  get_elem? (x ∷ xs) (suc i) = get_elem? xs i

  -- `if let Some(entry) = xs.get_mut(i) { *entry = v }`: out of bounds nothing changes.
  unfoldable pub set : List A → ℕ → A → List A
  set [] i v = []
  set (x ∷ xs) zero v = v ∷ xs
  set (x ∷ xs) (suc i) v = x ∷ set xs i v

  -- `Iterator::any`.
  unfoldable pub any : (A → Bool) → List A → Bool
  any test [] = false
  any test (x ∷ xs) = test x || any test xs

  -- `Vec::push`.
  unfoldable pub push : List A → A → List A
  push xs a = xs ++ a ∷ []

  unfoldable pub drop_last : List A → List A
  drop_last [] = []
  drop_last (x ∷ []) = []
  drop_last (x ∷ x' ∷ xs) = x ∷ drop_last (x' ∷ xs)

  unfoldable pub replicate : ℕ → A → List A
  replicate zero a = []
  replicate (suc n) a = a ∷ replicate n a

  -- `Vec::swap_remove`, without the element removed: the last element takes the place `i`.
  unfoldable pub swap_remove : List A → ℕ → List A
  swap_remove xs i = elim (get_elem? xs (length xs - 1)) [
    | none ↦ xs
    | some last ↦ drop_last (set xs i last)
  ]

module _ {ℓ} {A : Type ℓ} where
  pub length-set : (xs : List A) (i : ℕ) (v : A) → length (set xs i v) ≡ length xs
  unfolding set
  length-set [] i v = refl
  length-set (x ∷ xs) zero v = refl
  length-set (x ∷ xs) (suc i) v = ap suc (length-set xs i v)

  pub get_elem?-set :
      (xs : List A) (i j : ℕ) (v : A)
      → get_elem? (set xs i v) j
        ≡ (if (i == j) && ltb i (length xs) then some v else get_elem? xs j)
  unfolding set get_elem?
  get_elem?-set [] i j v = ground arith
  get_elem?-set (x ∷ xs) zero zero v = ground arith
  get_elem?-set (x ∷ xs) zero (suc j) v = ground arith
  get_elem?-set (x ∷ xs) (suc i) zero v = ground arith
  get_elem?-set (x ∷ xs) (suc i) (suc j) v = ground (arith, get_elem?-set xs i j v)

  pub get_elem?-lt : (xs : List A) (i : ℕ) {a : A} → get_elem? xs i ≡ some a → i < length xs
  unfolding get_elem?
  get_elem?-lt [] i h = ground arith
  get_elem?-lt (x ∷ xs) zero h = omega arith
  get_elem?-lt (x ∷ xs) (suc i) h = omega (arith, get_elem?-lt xs i h)

  pub get_elem?-some : (xs : List A) (i : ℕ) → i < length xs → (a : A) × (get_elem? xs i ≡ some a)
  unfolding get_elem?
  get_elem?-some [] i h = elim h [ ]
  get_elem?-some (x ∷ xs) zero h = (x, refl)
  get_elem?-some (x ∷ xs) (suc i) h = get_elem?-some xs i (omega arith)

  pub get_elem?-none : (xs : List A) (i : ℕ) → length xs ≤ i → get_elem? xs i ≡ none
  unfolding get_elem?
  get_elem?-none [] i h = refl
  get_elem?-none (x ∷ xs) zero h = absurd (omega arith)
  get_elem?-none (x ∷ xs) (suc i) h = get_elem?-none xs i (omega arith)

  pub length-push : (xs : List A) (a : A) → length (push xs a) ≡ length xs + 1
  unfolding push
  length-push [] a = omega arith
  length-push (x ∷ xs) a = omega (arith, length-push xs a)

  pub get_elem?-push :
      (xs : List A) (a : A) (j : ℕ)
      → get_elem? (push xs a) j ≡ (if j == length xs then some a else get_elem? xs j)
  unfolding push get_elem?
  get_elem?-push [] a zero = refl
  get_elem?-push [] a (suc j) = ground arith
  get_elem?-push (x ∷ xs) a zero = ground arith
  get_elem?-push (x ∷ xs) a (suc j) = ground (arith, get_elem?-push xs a j)

  length-drop_last : (xs : List A) → length (drop_last xs) ≡ length xs - 1
  unfolding drop_last
  length-drop_last [] = omega arith
  length-drop_last (x ∷ []) = omega arith
  length-drop_last (x ∷ x' ∷ xs) = omega (arith, length-drop_last (x' ∷ xs))

  get_elem?-drop_last :
      (xs : List A) (j : ℕ)
      → get_elem? (drop_last xs) j ≡ (if ltb (j + 1) (length xs) then get_elem? xs j else none)
  unfolding drop_last get_elem?
  get_elem?-drop_last [] j = ground arith
  get_elem?-drop_last (x ∷ []) zero = ground arith
  get_elem?-drop_last (x ∷ []) (suc j) = ground arith
  get_elem?-drop_last (x ∷ x' ∷ xs) zero = ground arith
  get_elem?-drop_last (x ∷ x' ∷ xs) (suc j) = ground (arith, get_elem?-drop_last (x' ∷ xs) j)

  pub length-swap_remove : (xs : List A) (i : ℕ) → length (swap_remove xs i) ≡ length xs - 1
  unfolding swap_remove get_elem?
  length-swap_remove [] i = omega arith
  length-swap_remove (x ∷ xs) i =
      let (a, e) = get_elem?-some (x ∷ xs) (length (x ∷ xs) - 1) (omega arith) in
      rw (e, swap_remove)
        (omega (arith, length-drop_last (set (x ∷ xs) i a), length-set (x ∷ xs) i a))

  -- After `swap_remove` the place `i` holds what was last, the others keep their elements.
  pub get_elem?-swap_remove :
      (xs : List A) (i j : ℕ)
      → i < length xs
      → get_elem? (swap_remove xs i) j ≡ (
          if ltb (j + 1) (length xs)
          then (if j == i then get_elem? xs (length xs - 1) else get_elem? xs j)
          else none)
  unfolding swap_remove
  get_elem?-swap_remove xs i j h =
      let (a, e) = get_elem?-some xs (length xs - 1) (omega arith) in
      rw (e, swap_remove)
        (ground
          (arith, get_elem?-drop_last (set xs i a) j, get_elem?-set xs i j a, length-set xs i a))

  pub length-append : (xs ys : List A) → length (xs ++ ys) ≡ length xs + length ys
  length-append [] ys = omega arith
  length-append (x ∷ xs) ys = omega (arith, length-append xs ys)

  pub get_elem?-append :
      (xs ys : List A) (j : ℕ) → get_elem? (xs ++ ys) (length xs + j) ≡ get_elem? ys j
  unfolding get_elem?
  get_elem?-append [] ys j = ground arith
  get_elem?-append (x ∷ xs) ys j = ground (arith, get_elem?-append xs ys j)

  pub any-append :
      (test : A → Bool) (xs ys : List A) → any test (xs ++ ys) ≡ any test xs || any test ys
  unfolding any
  any-append test [] ys = refl
  any-append test (x ∷ xs) ys = ground (arith, any-append test xs ys)

pub List-cases {ℓ} :
    {A : Type ℓ} (xs : List A) → (xs ≡ []) ⊎ ((x : A) × (ys : List A) × (xs ≡ x ∷ ys))
List-cases [] = inl refl
List-cases (x ∷ xs) = inr (x, xs, refl)
