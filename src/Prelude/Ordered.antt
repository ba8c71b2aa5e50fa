-- ===== src/Prelude/Ordered.antt =====
-- An ordered map over numbers, as the list of its entries in the order of their keys.
use warren_sdk_rs.Prelude.{
  ℕ, Option, none, some, List, [], ◌∷◌, ◌≡◌, arith, ltb, ◌==◌, ==_iff, if◌then◌else◌,
}
use warren_sdk_rs.Prelude.Map.{nat_eq, lookup}

module _ {ℓ} {V : Type ℓ} where
  -- `BTreeMap::insert`.
  unfoldable pub put : ℕ → V → List (ℕ × V) → List (ℕ × V)
  put k v [] = (k, v) ∷ []
  put k v ((j, w) ∷ m) =
      let rest = put k v m in
      if ltb k j then (k, v) ∷ (j, w) ∷ m else if k == j then (k, v) ∷ m else (j, w) ∷ rest

  -- `if let Some(v) = m.get_mut(&k) { *v = f(v) }`.
  unfoldable pub update : ℕ → (V → V) → List (ℕ × V) → List (ℕ × V)
  update k f [] = []
  update k f ((j, w) ∷ m) =
      let rest = update k f m in if j == k then (j, f w) ∷ m else (j, w) ∷ rest

  -- `BTreeMap::keys`.
  unfoldable pub keys : List (ℕ × V) → List ℕ
  keys [] = []
  keys ((j, w) ∷ m) = j ∷ keys m

  abbrev pub mapped : (V → V) → Option V → Option V
  mapped f none = none
  mapped f (some v) = some (f v)

  pub lookup-update :
      (k j : ℕ) (f : V → V) (m : List (ℕ × V))
      → lookup j (update k f m) ≡ (if k == j then mapped f (lookup j m) else lookup j m)
  unfolding lookup update
  lookup-update k j f [] = ground arith
  lookup-update k j f ((i, w) ∷ m) =
      ground (arith, ==_iff i k, ==_iff i j, ==_iff k j, lookup-update k j f m)

  pub lookup-put :
      (k j : ℕ) (v : V) (m : List (ℕ × V))
      → lookup j (put k v m) ≡ (if k == j then some v else lookup j m)
  unfolding lookup put
  lookup-put k j v [] = ground arith
  lookup-put k j v ((i, w) ∷ m) =
      ground (arith, ==_iff i k, ==_iff i j, ==_iff k j, ==_iff k i, lookup-put k j v m)

  pub lookup-update_self :
      (k : ℕ) (f : V → V) (m : List (ℕ × V)) {v : V}
      → lookup k m ≡ some v
      → lookup k (update k f m) ≡ some (f v)
  lookup-update_self k f m h = ground (arith, lookup-update k k f m, ==_iff k k, h)
