-- ===== src/Reconnect/Equivalence.antt =====
-- crates/warren-transport/src/reconnect.rs: the two connectors, that with the observer and that without.
use warren_sdk_rs.Prelude.{
  ℕ, zero, suc, ◌+◌, Option, none, some, List, [], ◌∷◌, ◌++◌, ◌≡◌, refl, sym, ap, ◌∙◌, inl, inr,
  Option-cases, ◌==◌, Bool-cases,
}
use warren_sdk_rs.Prelude.Outcomes.{Result, Result-cases}
use warren_sdk_rs.Reconnect.{
  Event, slept, reported, called, Run, prepend, sleep, state_loop, connect_with_state, retry_loop,
  connect_with_retry,
}
use warren_sdk_rs.Reconnect.Steps.{
  state_loop_stop, state_loop_done, state_loop_miss, retry_loop_stop, retry_loop_done,
  retry_loop_miss,
}

-- The events but the calls of the observer.
unfoldable pub unreported : List Event → List Event
unreported [] = []
unreported (slept delay ∷ es) = slept delay ∷ unreported es
unreported (reported s ∷ es) = unreported es
unreported (called ∷ es) = called ∷ unreported es

unfoldable pub quiet {ℓ} : {S T E : Type ℓ} → Run S T E → Run S T E
quiet r = record r { events = unreported r.events }

quiet-prepend {ℓ} :
    {S T E : Type ℓ} (delay : ℕ) (s : _) (r : Run S T E)
    → quiet (prepend (sleep delay ++ (reported s ∷ called ∷ [])) r)
      ≡ prepend (sleep delay ++ (called ∷ [])) (quiet r)
unfolding quiet unreported
quiet-prepend delay s r = elim (Bool-cases (delay == 0)) [ inl e ↦ rw e refl | inr e ↦ rw e refl ]

module _ {ℓ} {B S T E : Type ℓ} (next : B → Option (ℕ × B)) (connect : S → Result T E × S) where
  quiet-state_loop :
      (n : ℕ) (b : B) (i made : ℕ) (last : Option E) (s : S)
      → quiet (state_loop next connect n b i made last s) ≡ retry_loop next connect n b made last s
  unfolding quiet retry_loop state_loop unreported
  quiet-state_loop zero b i made last s = refl
  quiet-state_loop (suc n) b i made last s = elim (Option-cases (next b)) [
    | inl e ↦
        ap quiet (state_loop_stop next connect n b i made last s e)
        ∙ sym (retry_loop_stop next connect n b made last s e)
    | inr ((d, b'), e) ↦ elim (Result-cases (connect s).0) [
      | inl (v, f) ↦
          ap quiet (state_loop_done next connect n b i made last s e f)
          ∙ quiet-prepend d _ _
          ∙ sym (retry_loop_done next connect n b made last s e f)
      | inr (x, f) ↦
          ap quiet (state_loop_miss next connect n b i made last s e f)
          ∙ quiet-prepend d _ _
          ∙ ap (prepend (sleep d ++ (called ∷ [])))
              (quiet-state_loop n b' (i + 1) (made + 1) (some x) (connect s).1)
          ∙ sym (retry_loop_miss next connect n b made last s e f)
    ]
  ]

  -- The connector without the observer calls `connect` as the one with the observer does, after the
  -- same sleeps, and ends with the same result and the same state.
  pub quiet-connect_with_state :
      (b : B) (attempts : ℕ) (s : S)
      → quiet (connect_with_state next connect b attempts s)
        ≡ connect_with_retry next connect b attempts s
  unfolding connect_with_state connect_with_retry
  quiet-connect_with_state b attempts s = quiet-state_loop attempts b 0 0 none s
