-- ===== src/RateLimit/HandshakeBuckets/Refinement.antt =====
-- A source sees a bucket of its own, until its generation is dropped.
use warren_sdk_rs.Prelude.{
  ℕ, ◌≡◌, Bool, false, Option, none, some, inl, inr, [], arith, Bool-cases, leb, if◌then◌else◌,
  length,
}
use warren_sdk_rs.Prelude.Map.{Eq, ◌=?◌, lookup, eq_refl, lookup-insert, lookup-remove}
use warren_sdk_rs.RateLimit.TokenBucket.{TokenBucket}
use warren_sdk_rs.RateLimit.TokenBucket
use warren_sdk_rs.RateLimit.HandshakeBuckets.{
  HandshakeBuckets, Bucket, take_bucket, spend, put_bucket, admit,
}

-- `Option::or`.
abbrev pub or_else : Option Bucket → Option Bucket → Option Bucket
or_else none o = o
or_else (some b) o = some b

module _ {A : Type 0} ⦃e : Eq A⦄ where
  -- The bucket that a source has, as the gateway's own kind of bucket.
  abbrev pub bucket_of : HandshakeBuckets A → Option Bucket → TokenBucket
  bucket_of h none = record { rate = h.rate; burst = h.burst; tokens = h.burst; last = none }
  bucket_of h (some b) = record {
    rate = h.rate;
    burst = h.burst;
    tokens = b.tokens;
    last = some b.last;
  }

  pub view : HandshakeBuckets A → A → TokenBucket
  view h source = bucket_of h (or_else (lookup source h.current) (lookup source h.previous))

  -- True where the call starts a new generation.
  pub rotates : HandshakeBuckets A → A → ℕ → Bool
  rotates h source now = leb h.cap (length (take_bucket h source now).1.current)

  -- What is taken out is the source's own bucket, and the others stay.
  taken_self :
      (h : HandshakeBuckets A) (source : A) (now : ℕ)
      → ((take_bucket h source now).0.tokens ≡ (view h source).tokens)
        × ((take_bucket h source now).0.last ≡ TokenBucket.mark (view h source) now)
        × ((take_bucket h source now).1.rate ≡ h.rate)
        × ((take_bucket h source now).1.burst ≡ h.burst)
  unfolding take_bucket view
  taken_self h source now = ground arith

  taken_other :
      (h : HandshakeBuckets A) (source other : A) (now : ℕ)
      → (source =? other) ≡ false
      → (lookup other (take_bucket h source now).1.current ≡ lookup other h.current)
        × (lookup other (take_bucket h source now).1.previous ≡ lookup other h.previous)
        × ((take_bucket h source now).1.cap ≡ h.cap)
  unfolding take_bucket
  taken_other h source other now n =
      ground (arith, lookup-remove source other h.current, lookup-remove source other h.previous, n)

  put_lookup :
      (h : HandshakeBuckets A) (source other : A) (bucket : Bucket)
      → view (put_bucket h source bucket) other
        ≡ bucket_of h (
            if source =? other
            then some bucket
            else if leb h.cap (length h.current)
            then lookup other h.current
            else or_else (lookup other h.current) (lookup other h.previous))
  unfolding put_bucket view lookup
  put_lookup h source other bucket = elim (Bool-cases (leb h.cap (length h.current))) [
    | inl full ↦ rw full (rw (lookup-insert source other bucket []) (ground arith))
    | inr room ↦ rw room (rw (lookup-insert source other bucket h.current) (ground arith))
  ]

  -- A call is decided by the source's own bucket, or a full one for a new source, as the gateway's kind
  -- of bucket decides it, and it leaves that bucket stepped by this call.
  pub admit-view_self :
      (h : HandshakeBuckets A) (source : A) (now : ℕ)
      → ((admit h source now).0 ≡ (TokenBucket.admit (view h source) now).0)
        × (view (admit h source now).1 source ≡ (TokenBucket.admit (view h source) now).1)
  unfolding admit spend view TokenBucket.admit
  admit-view_self h source now = ground (
    arith,
    taken_self h source now,
    put_lookup (take_bucket h source now).1 source source
        (spend h (take_bucket h source now).0 now).1,
    eq_refl source,
  )

  -- A call leaves the bucket of every other source alone, but where it starts a new generation: then
  -- another source keeps its bucket if the generation that was current has one, and else has a full
  -- one.
  pub admit-view_other :
      (h : HandshakeBuckets A) (source other : A) (now : ℕ)
      → (source =? other) ≡ false
      → view (admit h source now).1 other
        ≡ (if rotates h source now then bucket_of h (lookup other h.current) else view h other)
  unfolding admit view rotates
  admit-view_other h source other now n = ground (
    arith,
    taken_self h source now,
    taken_other h source other now n,
    put_lookup (take_bucket h source now).1 source other
        (spend h (take_bucket h source now).0 now).1,
    n,
  )
