-- ===== src/Discovery/Selector.antt =====
-- crates/warren-discovery/src/selector.rs: the choice of an exit among the relays. The generator of
-- random numbers `R` belongs to another crate; `gen_range rng total` is its draw below `total`. `none`
-- stands for an index out of bounds.
use warren_sdk_rs.Prelude.{
  ℕ, ◌+◌, ◌-◌, ◌^◌, min, Bool, ◌&&◌, Option, none, some, List, [], ◌∷◌, ltb, ◌==◌, if◌then◌else◌,
  length, get_elem?,
}
use warren_sdk_rs.Prelude.Outcomes.{Result, ok, err}
use warren_sdk_rs.Discovery.{Relay, ExitQuery, matches}

pub data SelectorError : Type 0 where
  no_relay_match : SelectorError

-- `u64::saturating_add`.
unfoldable pub saturating_add : ℕ → ℕ → ℕ
saturating_add a b = min (a + b) (2 ^ 64 - 1)

-- `Iterator::filter` and `Iterator::find`.
unfoldable pub filter {ℓ} : {A : Type ℓ} → (A → Bool) → List A → List A
filter test [] = []
filter test (x ∷ xs) = let rest = filter test xs in if test x then x ∷ rest else rest

unfoldable pub find {ℓ} : {A : Type ℓ} → (A → Bool) → List A → Option A
find test [] = none
find test (x ∷ xs) = let rest = find test xs in if test x then some x else rest

-- `select`.
unfoldable pub select : List Relay → ExitQuery → Result Relay SelectorError
unfolding find matches
select relays query = elim (find (matches query) relays) [
  | none ↦ err no_relay_match
  | some relay ↦ ok relay
]

module _ {ℓ} {A : Type ℓ} (score : A → ℕ) where
  -- The fold that sums the weights, from `acc`.
  unfoldable pub total_from : ℕ → List A → ℕ
  unfolding saturating_add
  total_from acc [] = acc
  total_from acc (c ∷ cs) = total_from (saturating_add acc (score c)) cs

  -- The loop over the candidates; `none` where it ends.
  unfoldable pub walk : List A → ℕ → Option A
  walk [] roll = none
  walk (c ∷ cs) roll =
      let rest = walk cs (roll - score c) in if ltb roll (score c) then some c else rest

  -- The bodies of `weighted_pick` and `weighted_pick_scored`, which differ in `score`.
  unfoldable pub pick {κ} : {R : Type κ} → (R → ℕ → ℕ × R) → List A → R → Option A × R
  unfolding total_from walk
  pick gen_range candidates rng =
      let total = total_from 0 candidates in
      if total == 0
      then (get_elem? candidates 0, rng)
      else (let (roll, rng') = gen_range rng total in
          (
            elim (walk candidates roll) [
              | some c ↦ some c
              | none ↦ get_elem? candidates (length candidates - 1)
            ],
            rng',
          ))

unfoldable pub weighted_pick {κ} :
    {R : Type κ} → (R → ℕ → ℕ × R) → List Relay → R → Option Relay × R
unfolding pick
weighted_pick gen_range candidates rng = pick (λ (c : Relay). c.weight) gen_range candidates rng

unfoldable pub weighted_pick_scored {κ} :
    {R : Type κ} → (R → ℕ → ℕ × R) → List (Relay × ℕ) → R → Option Relay × R
unfolding pick
weighted_pick_scored gen_range candidates rng =
    let (picked, rng') = pick (λ (c : Relay × ℕ). c.1) gen_range candidates rng in
    (elim picked [ none ↦ none | some c ↦ some c.0 ], rng')

-- The test that both selections filter the relays by.
unfoldable pub is_candidate : ExitQuery → Relay → Bool
unfolding matches
is_candidate query relay = ltb 0 relay.weight && matches query relay

unfoldable pub select_with_rng {κ} :
    {R : Type κ}
    → (R → ℕ → ℕ × R)
    → List Relay
    → ExitQuery
    → R
    → Option (Result Relay SelectorError) × R
unfolding is_candidate filter weighted_pick
select_with_rng gen_range relays query rng = elim (filter (is_candidate query) relays) [
  | [] ↦ (some (err no_relay_match), rng)
  | c ∷ cs ↦
      let (picked, rng') = weighted_pick gen_range (c ∷ cs) rng in
      (elim picked [ none ↦ none | some relay ↦ some (ok relay) ], rng')
]

-- `select_for_attempt`, by the generator seeded with the attempt.
unfoldable pub select_for_attempt {κ} :
    {R : Type κ}
    → (R → ℕ → ℕ × R)
    → (ℕ → R)
    → List Relay
    → ExitQuery
    → ℕ
    → Option (Result Relay SelectorError)
unfolding select_with_rng
select_for_attempt gen_range seed_from_u64 relays query retry_attempt =
    (select_with_rng gen_range relays query (seed_from_u64 retry_attempt)).0
