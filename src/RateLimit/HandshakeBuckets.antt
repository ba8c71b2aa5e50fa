-- ===== src/RateLimit/HandshakeBuckets.antt =====
-- `HandshakeBuckets` of ratelimit.rs: one bucket for each source, in two generations.
pub mod Memory
pub mod Refinement
use warren_sdk_rs.Prelude.{
  ℕ, ◌+◌, ◌-◌, ◌*◌, Bool, true, false, not, Option, none, some, List, [], ltb, leb, if◌then◌else◌,
  max, length,
}
use warren_sdk_rs.Prelude.Map.{Eq, lookup, insert, remove}
use warren_sdk_rs.RateLimit.{
  scale, refilled, handshake_rate_per_ip, handshake_burst_per_ip, handshake_sources_tracked,
}

pub record Bucket : Type 0 where
  pub tokens : ℕ
  pub last : ℕ

-- `A` is the type of the source addresses.
pub record HandshakeBuckets (A : Type 0) : Type 0 where
  pub rate : ℕ
  pub burst : ℕ
  pub cap : ℕ
  pub current : List (A × Bucket)
  pub previous : List (A × Bucket)

unfoldable pub with_limits : {A : Type 0} → ℕ → ℕ → ℕ → HandshakeBuckets A
with_limits rate burst cap = record {
  rate = rate;
  burst = burst * scale;
  cap = max cap 1;
  current = [];
  previous = [];
}

unfoldable pub new : {A : Type 0} → HandshakeBuckets A
unfolding with_limits
new = with_limits handshake_rate_per_ip handshake_burst_per_ip handshake_sources_tracked

module _ {A : Type 0} ⦃e : Eq A⦄ where
  -- The bucket of the source, taken out of its generation; a new source has a full one.
  unfoldable pub take_bucket : HandshakeBuckets A → A → ℕ → Bucket × HandshakeBuckets A
  take_bucket h source now = elim (lookup source h.current) [
    | some bucket ↦ (bucket, record h { current = remove source h.current })
    | none ↦ elim (lookup source h.previous) [
      | some bucket ↦ (bucket, record h { previous = remove source h.previous })
      | none ↦ (record { tokens = h.burst; last = now }, h)
    ]
  ]

  -- The refill and the spending of `admit`.
  unfoldable pub spend : HandshakeBuckets A → Bucket → ℕ → Bool × Bucket
  unfolding refilled
  spend h bucket now =
      let (tokens, last) = refilled h.rate h.burst bucket.tokens bucket.last now in
      let admitted = leb scale tokens in
      (admitted, record { tokens = if admitted then tokens - scale else tokens; last = last })

  -- A full generation becomes the previous one before the bucket is put back.
  unfoldable pub put_bucket : HandshakeBuckets A → A → Bucket → HandshakeBuckets A
  put_bucket h source bucket =
      let h' =
        if leb h.cap (length h.current)
        then record h { previous = h.current; current = [] }
        else h in
      record h' { current = insert source bucket h'.current }

  unfoldable pub admit : HandshakeBuckets A → A → ℕ → Bool × HandshakeBuckets A
  admit h source now =
      let (bucket, h') = take_bucket h source now in
      let (admitted, bucket') = spend h bucket now in (admitted, put_bucket h' source bucket')

pub clear : {A : Type 0} → HandshakeBuckets A → HandshakeBuckets A
clear h = record h { current = []; previous = [] }

unfoldable pub tracked : {A : Type 0} → HandshakeBuckets A → ℕ
tracked h = length h.current + length h.previous
