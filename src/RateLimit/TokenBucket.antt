-- ===== src/RateLimit/TokenBucket.antt =====
-- `TokenBucket` of ratelimit.rs: the budget that belongs to the gateway.
pub mod Budget
use warren_sdk_rs.Prelude.{
  ℕ, ◌+◌, ◌-◌, ◌*◌, Bool, true, false, Option, none, some, List, [], ◌∷◌, ltb, if◌then◌else◌,
}
use warren_sdk_rs.RateLimit.{scale, refilled}

pub record TokenBucket : Type 0 where
  pub rate : ℕ
  pub burst : ℕ
  pub tokens : ℕ
  pub last : Option ℕ

unfoldable pub new : ℕ → ℕ → TokenBucket
new rate burst = record { rate = rate; burst = burst * scale; tokens = burst * scale; last = none }

-- The mark, set to `now` by the first call.
abbrev pub mark : TokenBucket → ℕ → ℕ
mark b now = elim b.last [ none ↦ now | some last ↦ last ]

unfoldable pub admit : TokenBucket → ℕ → Bool × TokenBucket
unfolding refilled
admit b now =
    let (tokens, last) = refilled b.rate b.burst b.tokens (mark b now) now in
    let b' = record b { tokens = tokens; last = some last } in
    if ltb tokens scale then (false, b') else (true, record b' { tokens = tokens - scale })

-- The calls at the given times: how many were admitted, and the bucket after them.
unfoldable pub admits : TokenBucket → List ℕ → ℕ × TokenBucket
admits b [] = (0, b)
admits b (now ∷ times) =
    let (n, b') = admits (admit b now).1 times in (if (admit b now).0 then n + 1 else n, b')
