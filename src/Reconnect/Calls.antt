-- ===== src/Reconnect/Calls.antt =====
-- crates/warren-transport/src/reconnect.rs: what a run returns, by the answers that the connector
-- gives to the first calls.
use warren_sdk_rs.Prelude.{
  ℕ, zero, suc, ◌+◌, ◌<◌, Option, none, some, List, [], ◌∷◌, ◌++◌, ◌≡◌, refl, sym, ap, ◌∙◌, inl,
  inr, ◌==◌, arith, Bool-cases, subst,
}
use mathlib.Core.List.{append_assoc}
use warren_sdk_rs.Prelude.Outcomes.{Result, ok, err}
use warren_sdk_rs.Reconnect.{
  RetryError, exhausted, Event, slept, reported, called, Run, prepend, sleep, retry_loop,
  connect_with_retry,
}
use warren_sdk_rs.Reconnect.Steps.{retry_loop_done, retry_loop_miss}

-- The number of calls of the connector.
unfoldable pub calls : List Event → ℕ
calls [] = 0
calls (slept delay ∷ es) = calls es
calls (reported s ∷ es) = calls es
calls (called ∷ es) = suc (calls es)

pub calls-sleep : (delay : ℕ) (es : List Event) → calls (sleep delay ++ es) ≡ calls es
unfolding calls
calls-sleep delay es = elim (Bool-cases (delay == 0)) [ inl e ↦ rw e refl | inr e ↦ rw e refl ]

-- The schedule has `n` more delays.
unfoldable pub Lasts {ℓ} : {B : Type ℓ} → (B → Option (ℕ × B)) → ℕ → B → Type ℓ
Lasts next zero b = Unit
Lasts next (suc n) b = (d : ℕ × _) × (next b ≡ some d) × Lasts next n d.1

module _ {ℓ} {S T E : Type ℓ} (connect : S → Result T E × S) where
  -- The state after `k` calls, and the answer to the call that follows them.
  unfoldable pub after : ℕ → S → S
  after zero s = s
  after (suc k) s = after k (connect s).1

  unfoldable pub answer : ℕ → S → Result T E
  answer k s = (connect (after k s)).0

-- A run made `n` calls, left the state that they leave, and ended with `result`.
pub record Ended {ℓ} {S T E : Type ℓ} (connect : S → Result T E × S) (n : ℕ) (s : S) (end : _)
    (r : Run S T E) : Type ℓ where
  pub ends : r.result ≡ end
  pub leaves : r.state ≡ after connect n s
  pub counts : calls r.events ≡ n

Ended-prepend {ℓ} :
    {S T E : Type ℓ} {connect : S → Result T E × S} {n : ℕ} {s : S} {end : Result T (RetryError E)}
    (d : ℕ) {r : Run S T E}
    → Ended connect n (connect s).1 end r
    → Ended connect (suc n) s end (prepend (sleep d ++ (called ∷ [])) r)
unfolding after calls
Ended-prepend d {r = r} h = record {
  ends = h.ends;
  leaves = h.leaves;
  counts =
      ap calls (append_assoc (sleep d) (called ∷ []) r.events) ∙ calls-sleep d _ ∙ ap suc h.counts;
}

module _ {ℓ} {B S T E : Type ℓ} (next : B → Option (ℕ × B)) (connect : S → Result T E × S) where
  retry_loop-returns :
      (k n : ℕ) (b : B) (made : ℕ) (last : Option E) (s : S) (v : T)
      → k < n
      → Lasts next (suc k) b
      → ((j : ℕ) → j < k → (x : E) × (answer connect j s ≡ err x))
      → answer connect k s ≡ ok v
      → Ended connect (suc k) s (ok v) (retry_loop next connect n b made last s)
  unfolding Lasts answer after calls
  retry_loop-returns k zero b made last s v h l e a = absurd (omega arith)
  retry_loop-returns zero (suc n) b made last s v h (d, f, l) e a =
      subst (Ended connect 1 s (ok v)) (sym (retry_loop_done next connect n b made last s f a))
        (Ended-prepend d.0 (record { ends = refl; leaves = refl; counts = refl }))
  retry_loop-returns (suc k) (suc n) b made last s v h (d, f, l) e a =
      let (x, a0) = e 0 (omega arith) in
      subst (Ended connect (suc (suc k)) s (ok v))
        (sym (retry_loop_miss next connect n b made last s f a0))
        (Ended-prepend d.0 (
          retry_loop-returns k n d.1 (made + 1) (some x) (connect s).1 v (omega arith) l
            (λ j p. e (suc j) (omega arith)) a))

  retry_loop-exhausts :
      (n : ℕ) (b : B) (made : ℕ) (last : Option E) (s : S) (x : E) (m : ℕ)
      → Lasts next (suc n) b
      → ((j : ℕ) → j < n → (y : E) × (answer connect j s ≡ err y))
      → answer connect n s ≡ err x
      → suc n + made ≡ m
      → Ended connect
          (suc n)
          s
          (err (exhausted m x))
          (retry_loop next connect (suc n) b made last s)
  unfolding Lasts answer after calls retry_loop
  retry_loop-exhausts zero b made last s x m (d, f, l) e a h =
      let made_one : made + 1 ≡ m = omega (arith, h) in
      subst (Ended connect 1 s (err (exhausted m x)))
        (sym (retry_loop_miss next connect zero b made last s f a))
        (Ended-prepend d.0 (record {
          ends = ap (λ (t : ℕ). err (exhausted t x)) made_one;
          leaves = refl;
          counts = refl;
        }))
  retry_loop-exhausts (suc n) b made last s x m (d, f, l) e a h =
      let (y, a0) = e 0 (omega arith) in
      subst (Ended connect (suc (suc n)) s (err (exhausted m x)))
        (sym (retry_loop_miss next connect (suc n) b made last s f a0))
        (Ended-prepend d.0 (
          retry_loop-exhausts n d.1 (made + 1) (some y) (connect s).1 x m l
            (λ j p. e (suc j) (omega arith)) a (omega (arith, h))))

  -- Where the schedule lasts, the connector fails `k` times and then gives `v`, and more than `k`
  -- attempts are allowed, the run ends with `v` after `suc k` calls, in the state that they leave.
  pub connect_with_retry-returns :
      (b : B) (attempts k : ℕ) (s : S) (v : T)
      → k < attempts
      → Lasts next (suc k) b
      → ((j : ℕ) → j < k → (x : E) × (answer connect j s ≡ err x))
      → answer connect k s ≡ ok v
      → Ended connect (suc k) s (ok v) (connect_with_retry next connect b attempts s)
  unfolding connect_with_retry
  connect_with_retry-returns b attempts k s v h l e a =
      retry_loop-returns k attempts b 0 none s v h l e a

  -- Where the schedule lasts and the connector fails at each of the `suc n` attempts allowed, the run
  -- makes them all and ends with their number and the last error.
  pub connect_with_retry-exhausts :
      (b : B) (n : ℕ) (s : S) (x : E)
      → Lasts next (suc n) b
      → ((j : ℕ) → j < n → (y : E) × (answer connect j s ≡ err y))
      → answer connect n s ≡ err x
      → Ended connect
          (suc n)
          s
          (err (exhausted (suc n) x))
          (connect_with_retry next connect b (suc n) s)
  unfolding connect_with_retry
  connect_with_retry-exhausts b n s x l e a =
      retry_loop-exhausts n b 0 none s x (suc n) l e a (omega arith)
