-- ===== src/Reconnect.antt =====
-- crates/warren-transport/src/reconnect.rs: the connector that retries. The state `B` is that of the
-- schedule of delays, whose iterator `next` belongs to another crate, and the state `S` what the
-- closure `connect` reads and changes. What a run does is the list of its events.
pub mod Equivalence
pub mod Steps
pub mod Calls
pub mod Observed
use warren_sdk_rs.Prelude.{
  ℕ, zero, suc, ◌+◌, Option, none, some, List, [], ◌∷◌, ◌++◌, ◌==◌, if◌then◌else◌,
}
use warren_sdk_rs.Prelude.Outcomes.{Result, ok, err}

pub data RetryError {ℓ} (E : Type ℓ) : Type ℓ where
  exhausted : ℕ → E → RetryError E
  no_attempts : RetryError E

pub data ConnectionState : Type 0 where
  connecting connected reconnecting draining failed : ConnectionState

-- A sleep, a call of `on_state` and a call of `connect`.
pub data Event : Type 0 where
  slept : ℕ → Event
  reported : ConnectionState → Event
  called : Event

pub record Run {ℓ} (S T E : Type ℓ) : Type ℓ where
  pub events : List Event
  pub result : Result T (RetryError E)
  pub state : S

-- `if !delay.is_zero() { sleep(delay).await }`.
abbrev pub sleep : ℕ → List Event
sleep delay = if delay == 0 then [] else slept delay ∷ []

-- The state reported before the attempt `i`.
abbrev pub announced : ℕ → ConnectionState
announced i = if i == 0 then connecting else reconnecting

-- The `match` on the last error, where no attempt succeeded.
abbrev pub give_up {ℓ} : {T E : Type ℓ} → ℕ → Option E → Result T (RetryError E)
give_up made none = err no_attempts
give_up made (some last) = err (exhausted made last)

abbrev pub run {ℓ} : {S T E : Type ℓ} → List Event → Result T (RetryError E) → S → Run S T E
run events result s = record { events = events; result = result; state = s }

abbrev pub prepend {ℓ} : {S T E : Type ℓ} → List Event → Run S T E → Run S T E
prepend es r = record r { events = es ++ r.events }

module _ {ℓ} {B S T E : Type ℓ} (next : B → Option (ℕ × B)) (connect : S → Result T E × S) where
  unfoldable pub state_loop : ℕ → B → ℕ → ℕ → Option E → S → Run S T E
  state_loop zero b i made last s = run (reported failed ∷ []) (give_up made last) s
  state_loop (suc n) b i made last s = elim (next b) [
    | none ↦ run (reported failed ∷ []) (give_up made last) s
    | some (delay, b') ↦ prepend (sleep delay ++ (reported (announced i) ∷ called ∷ [])) (
        let (reply, s') = connect s in
        elim reply [
          | ok value ↦ run (reported connected ∷ []) (ok value) s'
          | err e ↦ state_loop n b' (i + 1) (made + 1) (some e) s'
        ])
  ]

  unfoldable pub connect_with_state : B → ℕ → S → Run S T E
  unfolding state_loop
  connect_with_state backoff attempts s = state_loop attempts backoff 0 0 none s

  unfoldable pub retry_loop : ℕ → B → ℕ → Option E → S → Run S T E
  retry_loop zero b made last s = run [] (give_up made last) s
  retry_loop (suc n) b made last s = elim (next b) [
    | none ↦ run [] (give_up made last) s
    | some (delay, b') ↦ prepend (sleep delay ++ (called ∷ [])) (
        let (reply, s') = connect s in
        elim reply [
          | ok value ↦ run [] (ok value) s'
          | err e ↦ retry_loop n b' (made + 1) (some e) s'
        ])
  ]

  unfoldable pub connect_with_retry : B → ℕ → S → Run S T E
  unfolding retry_loop
  connect_with_retry backoff attempts s = retry_loop attempts backoff 0 none s
