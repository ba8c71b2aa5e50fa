-- ===== src/Tests/Retries.antt =====
-- The connectors of reconnect.rs with a schedule and a connector that are counters.
use warren_sdk_rs.Prelude.{
  ℕ, zero, suc, ◌+◌, ◌<◌, Option, some, ◌≡◌, ◌≤◌, refl, ltb, if◌then◌else◌, arith,
}
use warren_sdk_rs.Prelude.Outcomes.{Result, ok, err}
use warren_sdk_rs.Reconnect.{connect_with_state, connect_with_retry, exhausted}
use warren_sdk_rs.Reconnect.Equivalence.{quiet, quiet-connect_with_state}
use warren_sdk_rs.Reconnect.Calls.{
  Lasts, Ended, after, answer, calls, connect_with_retry-returns, connect_with_retry-exhausts,
}
use warren_sdk_rs.Reconnect.Observed.{
  states, lifecycle, reported_attempts, connect_with_state-lifecycle,
}

-- The delays 0, 1, 2, ….
abbrev delays : ℕ → Option (ℕ × ℕ)
delays b = some (b, b + 1)

-- The first two calls fail, with their number as the error; the others succeed.
abbrev dial : ℕ → Result ℕ ℕ × ℕ
dial s = ((if ltb s 2 then err s else ok s), s + 1)

quiet-connect_with_state_example :
    quiet (connect_with_state delays dial 0 5 0) ≡ connect_with_retry delays dial 0 5 0
quiet-connect_with_state_example = quiet-connect_with_state delays dial 0 5 0

three_delays : Lasts delays 3 0
unfolding Lasts
three_delays = ((0, 1), refl, ((1, 2), refl, ((2, 3), refl, tt)))

two_delays : Lasts delays 2 0
unfolding Lasts
two_delays = ((0, 1), refl, ((1, 2), refl, tt))

two_failures : (j : ℕ) → j < 2 → (x : ℕ) × (answer dial j 0 ≡ err x)
unfolding answer after
two_failures zero h = (0, refl)
two_failures (suc zero) h = (1, refl)
two_failures (suc (suc j)) h = absurd (omega arith)

third : answer dial 2 0 ≡ ok 2
unfolding answer after
third = refl

connect_with_retry-returns_example : Ended dial 3 0 (ok 2) (connect_with_retry delays dial 0 5 0)
connect_with_retry-returns_example =
    connect_with_retry-returns delays dial 0 5 2 0 2 (omega arith) three_delays two_failures third

second : answer dial 1 0 ≡ err 1
unfolding answer after
second = refl

one_failure : (j : ℕ) → j < 1 → (x : ℕ) × (answer dial j 0 ≡ err x)
one_failure j h = two_failures j (omega arith)

connect_with_retry-exhausts_example :
    Ended dial 2 0 (err (exhausted 2 1)) (connect_with_retry delays dial 0 2 0)
connect_with_retry-exhausts_example =
    connect_with_retry-exhausts delays dial 0 1 0 1 two_delays one_failure second

connect_with_state-lifecycle_example :
    (states (connect_with_state delays dial 0 5 0).events
      ≡ lifecycle
          (calls (connect_with_state delays dial 0 5 0).events)
          (connect_with_state delays dial 0 5 0).result)
    × (calls (connect_with_state delays dial 0 5 0).events ≤ 5)
    × (reported_attempts
          (connect_with_state delays dial 0 5 0).result
          (calls (connect_with_state delays dial 0 5 0).events)
        ≡ calls (connect_with_state delays dial 0 5 0).events)
connect_with_state-lifecycle_example = connect_with_state-lifecycle delays dial 0 5 0
