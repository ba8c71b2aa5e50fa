-- ===== src/Discovery/First.antt =====
-- crates/warren-discovery/src/selector.rs: the choice that ignores the weights.
use warren_sdk_rs.Prelude.{
  Bool, true, false, Option, none, some, List, [], ◌∷◌, ◌++◌, ◌≡◌, refl, ap, inl, inr, Bool-cases,
  any,
}
use warren_sdk_rs.Prelude.Outcomes.{Result, ok, err}
use warren_sdk_rs.Discovery.{Relay, ExitQuery, matches}
use warren_sdk_rs.Discovery.Selector.{find, select, SelectorError, no_relay_match}

-- The element found, with what stands before and after it in the list.
pub record Split {ℓ} {A : Type ℓ} (test : A → Bool) (xs : List A) (x : A) : Type ℓ where
  pub before : List A
  pub after : List A
  pub parts : xs ≡ before ++ (x ∷ after)
  pub passes : test x ≡ true

pub split_cons {ℓ} :
    {A : Type ℓ} {test : A → Bool} {xs : List A} {x : A} (y : A)
    → Split test xs x
    → Split test (y ∷ xs) x
split_cons y s = record {
  before = y ∷ s.before;
  after = s.after;
  parts = ap (λ zs. y ∷ zs) s.parts;
  passes = s.passes;
}

-- What `find` returns.
pub data Found {ℓ} {A : Type ℓ} (test : A → Bool) (xs : List A) : Option A → Type ℓ where
  found : (x : A) (s : Split test xs x) → any test s.before ≡ false → Found test xs (some x)
  not_found : any test xs ≡ false → Found test xs none

module _ {ℓ} {A : Type ℓ} (test : A → Bool) where
  Found-cons :
      (x : A) (xs : List A) (o : Option A)
      → test x ≡ false
      → Found test xs o
      → Found test (x ∷ xs) o
  unfolding any split_cons
  Found-cons x xs _ h (found y s e) = found y (split_cons x s) (rw h e)
  Found-cons x xs _ h (not_found e) = not_found (rw h e)

  pub find-Found : (xs : List A) → Found test xs (find test xs)
  unfolding find any
  find-Found [] = not_found refl
  find-Found (x ∷ xs) = elim (Bool-cases (test x)) [
    | inl h ↦
        rw (h, find) (found x (record { before = []; after = xs; parts = refl; passes = h }) refl)
    | inr h ↦ rw (h, find) (Found-cons x xs (find test xs) h (find-Found xs))
  ]

-- The relay that a query selects without weights, or the error.
pub data Selected (query : ExitQuery) (relays : List Relay)
    : Result Relay SelectorError → Type 0 where
  selected :
      (relay : Relay) (s : Split (matches query) relays relay)
      → any (matches query) s.before ≡ false
      → Selected query relays (ok relay)
  unmatched : any (matches query) relays ≡ false → Selected query relays (err no_relay_match)

select-Found :
    (query : ExitQuery) (relays : List Relay) (o : Option Relay)
    → Found (matches query) relays o
    → Selected query relays (elim o [ none ↦ err no_relay_match | some relay ↦ ok relay ])
select-Found query relays _ (found relay s e) = selected relay s e
select-Found query relays _ (not_found e) = unmatched e

-- `select` gives the first relay that the query matches: it matches, and none before it does. It gives
-- the error exactly where the query matches no relay.
pub select-Selected :
    (relays : List Relay) (query : ExitQuery) → Selected query relays (select relays query)
unfolding select
select-Selected relays query = select-Found query relays _ (find-Found (matches query) relays)
