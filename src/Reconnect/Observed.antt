-- ===== src/Reconnect/Observed.antt =====
-- crates/warren-transport/src/reconnect.rs: the states that the observer sees, and the count of attempts
-- that an exhausted run reports.
use warren_sdk_rs.Prelude.{
  ℕ, zero, suc, ◌+◌, ◌≤◌, Option, none, some, List, [], ◌∷◌, ◌++◌, ◌≡◌, refl, sym, ap, ◌∙◌, subst,
  inl, inr, Option-cases, Bool-cases, ◌==◌, if◌then◌else◌, replicate, arith,
}
use mathlib.Core.List.{append_assoc}
use warren_sdk_rs.Prelude.Outcomes.{Result, ok, err, is_ok, Result-cases}
use warren_sdk_rs.Reconnect.{
  RetryError, exhausted, no_attempts, ConnectionState, connecting, reconnecting, connected, failed,
  Event, slept, reported, called, Run, run, prepend, sleep, announced, give_up, state_loop,
  connect_with_state,
}
use warren_sdk_rs.Reconnect.Steps.{state_loop_stop, state_loop_done, state_loop_miss}
use warren_sdk_rs.Reconnect.Calls.{calls, calls-sleep}

-- The states that the observer is told, in order.
unfoldable pub states : List Event → List ConnectionState
states [] = []
states (slept delay ∷ es) = states es
states (reported s ∷ es) = s ∷ states es
states (called ∷ es) = states es

states-sleep : (delay : ℕ) (es : List Event) → states (sleep delay ++ es) ≡ states es
unfolding states
states-sleep delay es = elim (Bool-cases (delay == 0)) [ inl e ↦ rw e refl | inr e ↦ rw e refl ]

-- What is told before the attempts `i`, `i + 1`, … of a run that makes `n` of them.
unfoldable pub told : ℕ → ℕ → List ConnectionState
told i zero = []
told i (suc n) = announced i ∷ told (i + 1) n

announced-suc : (i : ℕ) → announced (suc i) ≡ reconnecting
announced-suc i = ground arith

told-reconnecting : (i n : ℕ) → told (suc i) n ≡ replicate n reconnecting
unfolding told replicate
told-reconnecting i zero = refl
told-reconnecting i (suc n) = rw (announced-suc i) (
    ap (λ (xs : List ConnectionState). reconnecting ∷ xs) {x = told (suc i + 1) n}
      {y = replicate n reconnecting}
      (ap (λ (j : ℕ). told j n) {y = suc (suc i)} (omega arith) ∙ told-reconnecting (suc i) n))

unfoldable pub final {ℓ} : {T E : Type ℓ} → Result T E → ConnectionState
final r = if is_ok r then connected else failed

-- The number of attempts that the result gives, `n` where it gives none.
unfoldable pub reported_attempts {ℓ} : {T E : Type ℓ} → Result T (RetryError E) → ℕ → ℕ
reported_attempts (ok v) n = n
reported_attempts (err (exhausted made last)) n = made
reported_attempts (err no_attempts) n = 0

-- What a run of at most `n` attempts tells from its attempt `i` on, where `made` went before.
pub record Observed {ℓ} {S T E : Type ℓ} (i made n : ℕ) (r : Run S T E) : Type ℓ where
  pub tells : states r.events ≡ told i (calls r.events) ++ (final r.result ∷ [])
  pub within : calls r.events ≤ n
  pub counts : reported_attempts r.result (made + calls r.events) ≡ made + calls r.events

Observed-failed {ℓ} :
    {S T E : Type ℓ} (i made n : ℕ) (last : Option E) (s : S)
    → reported_attempts (give_up {T = T} made last) made ≡ made
    → Observed i made n (run {T = T} (reported failed ∷ []) (give_up made last) s)
unfolding states calls told final reported_attempts
Observed-failed i made n none s h = record {
  tells = refl;
  within = omega arith;
  counts = omega (arith, h);
}
Observed-failed i made n (some x) s h = record {
  tells = refl;
  within = omega arith;
  counts = omega arith;
}

Observed-connected {ℓ} :
    {S T E : Type ℓ} (i made n : ℕ) (v : T) (s : S)
    → Observed i made n (run {E = E} (reported connected ∷ []) (ok v) s)
unfolding states calls told final reported_attempts
Observed-connected i made n v s = record { tells = refl; within = omega arith; counts = refl }

some_counts {ℓ} :
    (T : Type ℓ) {E : Type ℓ} (made : ℕ) (x : E)
    → reported_attempts (give_up {T = T} (made + 1) (some x)) (made + 1) ≡ made + 1
unfolding reported_attempts
some_counts T made x = refl

Observed-prepend {ℓ} :
    {S T E : Type ℓ} (i made n d : ℕ) (r : Run S T E)
    → Observed (i + 1) (made + 1) n r
    → Observed i made (suc n) (prepend (sleep d ++ (reported (announced i) ∷ called ∷ [])) r)
unfolding states calls told
Observed-prepend i made n d r h =
    let es : List Event = reported (announced i) ∷ called ∷ [] in
    let c : calls ((sleep d ++ es) ++ r.events) ≡ suc (calls r.events) =
      ap calls (append_assoc (sleep d) es r.events) ∙ calls-sleep d _ in
    let t : states ((sleep d ++ es) ++ r.events) ≡ announced i ∷ states r.events =
      ap states (append_assoc (sleep d) es r.events) ∙ states-sleep d _ in
    let shift : made + calls ((sleep d ++ es) ++ r.events) ≡ made + 1 + calls r.events =
      omega (arith, c) in
    record {
      tells =
          t
          ∙ ap (λ xs. announced i ∷ xs) h.tells
          ∙ ap (λ (k : ℕ). told i k ++ (final r.result ∷ [])) (sym c);
      within = omega (arith, c, h.within);
      counts = ap (reported_attempts r.result) shift ∙ h.counts ∙ sym shift;
    }

module _ {ℓ} {B S T E : Type ℓ} (next : B → Option (ℕ × B)) (connect : S → Result T E × S) where
  state_loop-Observed :
      (n : ℕ) (b : B) (i made : ℕ) (last : Option E) (s : S)
      → reported_attempts (give_up {T = T} made last) made ≡ made
      → Observed i made n (state_loop next connect n b i made last s)
  unfolding state_loop
  state_loop-Observed zero b i made last s h = Observed-failed i made 0 last s h
  state_loop-Observed (suc n) b i made last s h = elim (Option-cases (next b)) [
    | inl e ↦
        subst (Observed i made (suc n)) (sym (state_loop_stop next connect n b i made last s e))
          (Observed-failed i made (suc n) last s h)
    | inr ((d, b'), e) ↦ elim (Result-cases (connect s).0) [
      | inl (v, f) ↦
          subst (Observed i made (suc n)) (sym (state_loop_done next connect n b i made last s e f))
            (Observed-prepend i made n d _
              (Observed-connected (i + 1) (made + 1) n v (connect s).1))
      | inr (x, f) ↦
          subst (Observed i made (suc n)) (sym (state_loop_miss next connect n b i made last s e f))
            (Observed-prepend i made n d _ (
              state_loop-Observed n b' (i + 1) (made + 1) (some x) (connect s).1
                (some_counts T made x)))
    ]
  ]

-- What the observer is told of a run that makes `n` attempts.
unfoldable pub lifecycle {ℓ} : {T E : Type ℓ} → ℕ → Result T E → List ConnectionState
lifecycle zero r = final r ∷ []
lifecycle (suc n) r = connecting ∷ (replicate n reconnecting ++ (final r ∷ []))

lifecycle_lem {ℓ} :
    {T E : Type ℓ} (n : ℕ) (r : Result T E) → told 0 n ++ (final r ∷ []) ≡ lifecycle n r
unfolding told lifecycle
lifecycle_lem zero r = refl
lifecycle_lem (suc n) r =
    ap (λ xs. connecting ∷ (xs ++ (final r ∷ [])))
      (ap (λ (j : ℕ). told j n) {y = 1} (omega arith) ∙ told-reconnecting 0 n)

module _ {ℓ} {B S T E : Type ℓ} (next : B → Option (ℕ × B)) (connect : S → Result T E × S) where
  -- A run makes at most `attempts` attempts. It tells the observer that it connects before the first,
  -- that it reconnects before each of the others, and at its end that it is connected, where it
  -- returns a value, and that it failed where it returns an error. The number that an exhausted run
  -- reports is that of the attempts that it made, and it reports that there was none only where it
  -- made none.
  pub connect_with_state-lifecycle :
      (b : B) (attempts : ℕ) (s : S)
      → let r = connect_with_state next connect b attempts s in
        (states r.events ≡ lifecycle (calls r.events) r.result)
        × (calls r.events ≤ attempts)
        × (reported_attempts r.result (calls r.events) ≡ calls r.events)
  unfolding connect_with_state reported_attempts
  connect_with_state-lifecycle b attempts s =
      let r = connect_with_state next connect b attempts s in
      let h = state_loop-Observed next connect attempts b 0 0 none s refl in
      (
        h.tells ∙ lifecycle_lem (calls r.events) r.result,
        h.within,
        ap (reported_attempts r.result) {y = 0 + calls r.events} (omega arith)
            ∙ h.counts
            ∙ omega arith,
      )
