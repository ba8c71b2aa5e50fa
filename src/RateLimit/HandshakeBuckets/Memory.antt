-- ===== src/RateLimit/HandshakeBuckets/Memory.antt =====
-- The number of sources held is bounded, whatever addresses the calls name.
use warren_sdk_rs.Prelude.{
  ℕ, ◌*◌, ◌≤◌, ◌≡◌, refl, ◌∙◌, max, inl, inr, List, [], ◌∷◌, arith, Bool-cases, leb, length,
}
use warren_sdk_rs.Prelude.Map.{Eq, length-remove-le, length-insert-le}
use warren_sdk_rs.RateLimit.HandshakeBuckets.{
  HandshakeBuckets, Bucket, with_limits, take_bucket, spend, put_bucket, admit, tracked,
}

pub record IsBounded {A : Type 0} (h : HandshakeBuckets A) : Type 0 where
  pub positive : 1 ≤ h.cap
  pub current : length h.current ≤ h.cap
  pub previous : length h.previous ≤ h.cap

with_limits-IsBounded :
    {A : Type 0} (rate burst cap : ℕ) → IsBounded {A = A} (with_limits rate burst cap)
unfolding with_limits
with_limits-IsBounded rate burst cap = record {
  positive = omega arith;
  current = omega arith;
  previous = omega arith;
}

module _ {A : Type 0} ⦃e : Eq A⦄ where
  take_bucket-IsBounded :
      (h : HandshakeBuckets A) (source : A) (now : ℕ)
      → IsBounded h
      → IsBounded (take_bucket h source now).1 × ((take_bucket h source now).1.cap ≡ h.cap)
  unfolding take_bucket
  take_bucket-IsBounded h source now b =
      ground (arith, length-remove-le source h.current, length-remove-le source h.previous)

  put_bucket-IsBounded :
      (h : HandshakeBuckets A) (source : A) (bucket : Bucket)
      → IsBounded h
      → IsBounded (put_bucket h source bucket) × ((put_bucket h source bucket).cap ≡ h.cap)
  unfolding put_bucket
  put_bucket-IsBounded h source bucket b = elim (Bool-cases (leb h.cap (length h.current))) [
    | inl full ↦ rw full (
      record {
        positive = b.positive;
        current = omega (arith, length-insert-le source bucket [], b.positive);
        previous = b.current;
      },
      refl,
    )
    | inr room ↦ rw room (
      record {
        positive = b.positive;
        current = ground (arith, length-insert-le source bucket h.current);
        previous = b.previous;
      },
      refl,
    )
  ]

  pub admit-IsBounded :
      (h : HandshakeBuckets A) (source : A) (now : ℕ)
      → IsBounded h
      → IsBounded (admit h source now).1 × ((admit h source now).1.cap ≡ h.cap)
  unfolding admit
  admit-IsBounded h source now b =
      let t = take_bucket h source now in
      let (taken, c) = take_bucket-IsBounded h source now b in
      let (kept, c') = put_bucket-IsBounded t.1 source (spend h t.0 now).1 taken in (kept, c' ∙ c)

  -- The calls for the given sources at the given times, one after the other.
  unfoldable pub serve : HandshakeBuckets A → List (A × ℕ) → HandshakeBuckets A
  serve h [] = h
  serve h ((source, now) ∷ calls) = serve (admit h source now).1 calls

  serve-IsBounded :
      (h : HandshakeBuckets A) (calls : List (A × ℕ))
      → IsBounded h
      → IsBounded (serve h calls) × ((serve h calls).cap ≡ h.cap)
  unfolding serve
  serve-IsBounded h [] b = (b, refl)
  serve-IsBounded h ((source, now) ∷ calls) b =
      let (b', c) = admit-IsBounded h source now b in
      let (b'', c') = serve-IsBounded (admit h source now).1 calls b' in (b'', c' ∙ c)

  -- However many sources call, at most twice the limit are held, a limit of zero taken
  -- as one.
  pub tracked-serve-le :
      (rate burst cap : ℕ) (calls : List (A × ℕ))
      → tracked (serve (with_limits rate burst cap) calls) ≤ 2 * max cap 1
  unfolding tracked with_limits
  tracked-serve-le rate burst cap calls =
      let (b, c) =
        serve-IsBounded (with_limits rate burst cap) calls (with_limits-IsBounded rate burst cap) in
      omega (arith, b.current, b.previous, c)
