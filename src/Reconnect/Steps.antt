-- ===== src/Reconnect/Steps.antt =====
-- crates/warren-transport/src/reconnect.rs: one turn of each loop, by what the schedule and the
-- connector return.
use warren_sdk_rs.Prelude.{ℕ, suc, ◌+◌, Option, none, some, [], ◌∷◌, ◌++◌, ◌≡◌, refl}
use warren_sdk_rs.Prelude.Outcomes.{Result, ok, err}
use warren_sdk_rs.Reconnect.{
  reported, called, connected, failed, run, prepend, sleep, give_up, announced, state_loop,
  retry_loop,
}

module _ {ℓ} {B S T E : Type ℓ} (next : B → Option (ℕ × B)) (connect : S → Result T E × S) where
  pub state_loop_stop :
      (n : ℕ) (b : B) (i made : ℕ) (last : Option E) (s : S)
      → next b ≡ none
      → state_loop next connect (suc n) b i made last s
        ≡ run (reported failed ∷ []) (give_up made last) s
  unfolding state_loop
  state_loop_stop n b i made last s e = rw (state_loop, e) refl

  pub state_loop_done :
      (n : ℕ) (b : B) (i made : ℕ) (last : Option E) (s : S) {d : ℕ} {b' : B} {v : T}
      → next b ≡ some (d, b')
      → (connect s).0 ≡ ok v
      → state_loop next connect (suc n) b i made last s
        ≡ prepend
            (sleep d ++ (reported (announced i) ∷ called ∷ []))
            (run (reported connected ∷ []) (ok v) (connect s).1)
  unfolding state_loop
  state_loop_done n b i made last s e f = rw (state_loop, e, f) refl

  pub state_loop_miss :
      (n : ℕ) (b : B) (i made : ℕ) (last : Option E) (s : S) {d : ℕ} {b' : B} {x : E}
      → next b ≡ some (d, b')
      → (connect s).0 ≡ err x
      → state_loop next connect (suc n) b i made last s
        ≡ prepend
            (sleep d ++ (reported (announced i) ∷ called ∷ []))
            (state_loop next connect n b' (i + 1) (made + 1) (some x) (connect s).1)
  unfolding state_loop
  state_loop_miss n b i made last s e f = rw (state_loop, e, f) refl

  pub retry_loop_stop :
      (n : ℕ) (b : B) (made : ℕ) (last : Option E) (s : S)
      → next b ≡ none
      → retry_loop next connect (suc n) b made last s ≡ run [] (give_up made last) s
  unfolding retry_loop
  retry_loop_stop n b made last s e = rw (retry_loop, e) refl

  pub retry_loop_done :
      (n : ℕ) (b : B) (made : ℕ) (last : Option E) (s : S) {d : ℕ} {b' : B} {v : T}
      → next b ≡ some (d, b')
      → (connect s).0 ≡ ok v
      → retry_loop next connect (suc n) b made last s
        ≡ prepend (sleep d ++ (called ∷ [])) (run [] (ok v) (connect s).1)
  unfolding retry_loop
  retry_loop_done n b made last s e f = rw (retry_loop, e, f) refl

  pub retry_loop_miss :
      (n : ℕ) (b : B) (made : ℕ) (last : Option E) (s : S) {d : ℕ} {b' : B} {x : E}
      → next b ≡ some (d, b')
      → (connect s).0 ≡ err x
      → retry_loop next connect (suc n) b made last s
        ≡ prepend
            (sleep d ++ (called ∷ []))
            (retry_loop next connect n b' (made + 1) (some x) (connect s).1)
  unfolding retry_loop
  retry_loop_miss n b made last s e f = rw (retry_loop, e, f) refl
