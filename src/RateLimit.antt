-- ===== src/RateLimit.antt =====
-- crates/warren-bolthole-core/src/ratelimit.rs: token buckets, one for the gateway and one for each
-- source address. An `Instant` is its distance in nanoseconds from an instant before all others.
pub mod TokenBucket
pub mod HandshakeBuckets
use warren_sdk_rs.Prelude.{ℕ, ◌+◌, ◌-◌, ◌*◌, ◌/◌, ◌^◌, ltb, if◌then◌else◌, min}

abbrev pub u64_max : ℕ
u64_max = 2 ^ 64 - 1

abbrev pub scale : ℕ
scale = 1000

abbrev pub handshake_rate_per_ip : ℕ
handshake_rate_per_ip = 5

abbrev pub handshake_burst_per_ip : ℕ
handshake_burst_per_ip = 10

abbrev pub handshake_sources_tracked : ℕ
handshake_sources_tracked = 4096

-- `u64::try_from(now.saturating_duration_since(last).as_millis()).unwrap_or(u64::MAX)`.
abbrev pub millis_since : ℕ → ℕ → ℕ
millis_since now last = min ((now - last) / 1_000_000) u64_max

-- `u64::saturating_mul` and `u64::saturating_add`.
abbrev pub saturating_mul : ℕ → ℕ → ℕ
saturating_mul a b = min (a * b) u64_max

abbrev pub saturating_add : ℕ → ℕ → ℕ
saturating_add a b = min (a + b) u64_max

-- The tokens and the mark after the refill at `now`.
unfoldable pub refilled : ℕ → ℕ → ℕ → ℕ → ℕ → ℕ × ℕ
refilled rate burst tokens last now =
    let refill = saturating_mul (millis_since now last) rate in
    if ltb 0 refill then (min (saturating_add tokens refill) burst, now) else (tokens, last)
