-- ===== src/RateLimit/TokenBucket/Budget.antt =====
-- How many calls one bucket admits.
use native.Mathlib.Nat.{mul-le-mul_left, zero-mul, mul-add}
use warren_sdk_rs.Prelude.{
  ℕ, zero, suc, ◌+◌, ◌-◌, ◌*◌, ◌≤◌, ◌<◌, ◌≡◌, refl, ap, Bool, some, List, [], ◌∷◌, arith, ltb,
  if◌then◌else◌, min, inl, inr, ◌⊎◌, Bool-cases,
}
use warren_sdk_rs.RateLimit.{scale, refilled, millis_since, saturating_mul, u64_max}
use warren_sdk_rs.RateLimit.TokenBucket.{TokenBucket, new, mark, admit, admits}

abbrev pub AllBefore : ℕ → List ℕ → Type 0
AllBefore until [] = Unit {0}
AllBefore until (t ∷ times) = (t ≤ until) × AllBefore until times

gain :
    (rate m last now : ℕ)
    → 1_000_000 * m ≤ now - last
    → 0 < m
    → 1_000_000 * (m * rate) + rate * last ≤ rate * now
gain rate m last now h p =
    let whole : now ≡ last + (now - last) = omega arith in
    omega (
      arith,
      mul-le-mul_left rate h,
      mul-add rate last (now - last),
      ap (λ (t : ℕ). rate * t) whole,
    )

positive : (m rate : ℕ) → 0 < min (m * rate) u64_max → 0 < m
positive zero rate h = omega (arith, zero-mul rate)
positive (suc m) rate h = omega arith

-- A refill buys at most the rate for the time that passed, in thousandths of a token.
pub refilled_bounds :
    (rate burst tokens last now : ℕ)
    → tokens ≤ burst
    → ((refilled rate burst tokens last now).0 ≤ burst)
      × (((refilled rate burst tokens last now).1 ≡ last)
          ⊎ ((refilled rate burst tokens last now).1 ≡ now))
      × (1_000_000 * (refilled rate burst tokens last now).0 + rate * last
          ≤ 1_000_000 * tokens + rate * (refilled rate burst tokens last now).1)
unfolding refilled
refilled_bounds rate burst tokens last now h =
    let m = millis_since now last in
    elim (Bool-cases (ltb 0 (saturating_mul m rate))) [
      | inl more ↦
          let bought = gain rate m last now (omega arith) (positive m rate (ground arith)) in
          rw more (omega arith, inr refl, omega (arith, bought))
      | inr less ↦ rw less (h, inl refl, omega arith)
    ]

-- The time of the bucket's next call lies before `until`, and so does its mark.
record Within (b : TokenBucket) (l until : ℕ) : Type 0 where
  bounded : b.tokens ≤ b.burst
  marked : b.last ≡ some l
  early : l ≤ until

abbrev price : Bool → ℕ
price admitted = if admitted then 1_000_000_000 else 0

admit_bound :
    (b : TokenBucket) (now until : ℕ)
    → b.tokens ≤ b.burst
    → now ≤ until
    → mark b now ≤ until
    → (l : ℕ) × Within (admit b now).1 l until
      × ((admit b now).1.rate ≡ b.rate)
      × (price (admit b now).0 + 1_000_000 * (admit b now).1.tokens + b.rate * mark b now
          ≤ 1_000_000 * b.tokens + b.rate * l)
unfolding admit
admit_bound b now until h n m =
    let (bounded, moved, paid) = refilled_bounds b.rate b.burst b.tokens (mark b now) now h in
    let r = refilled b.rate b.burst b.tokens (mark b now) now in
    elim (Bool-cases (ltb r.0 scale)) [
      | inl refused ↦
          rw refused (
            r.1,
            record { bounded = bounded; marked = refl; early = omega arith },
            refl,
            omega arith,
          )
      | inr passed ↦ rw passed (
        r.1,
        record { bounded = omega arith; marked = refl; early = omega arith },
        refl,
        ground arith,
      )
    ]

admits_bound :
    (b : TokenBucket) (l until : ℕ) (times : List ℕ)
    → Within b l until
    → AllBefore until times
    → 1_000_000_000 * (admits b times).0 + b.rate * l ≤ 1_000_000 * b.tokens + b.rate * until
unfolding admits
admits_bound b l until [] w h = omega (arith, mul-le-mul_left b.rate w.early)
admits_bound b l until (now ∷ times) w (t, h) =
    let same : mark b now ≡ l = rw w.marked in
    let (l', w', rate, paid) = admit_bound b now until w.bounded t (rw same w.early) in
    let rest = rw rate at (admits_bound (admit b now).1 l' until times w' h) in
    let spent = rw same at paid in ground (arith, rest, spent)

-- From its first call on, at `now`, with no call after `until`, a full bucket admits at most its
-- burst and its rate for each second from `now` to `until`.
pub admits-le_budget :
    (rate burst now until : ℕ) (times : List ℕ)
    → AllBefore until (now ∷ times)
    → 1_000_000_000 * (admits (new rate burst) (now ∷ times)).0
      ≤ 1_000_000_000 * burst + rate * (until - now)
unfolding admits new
admits-le_budget rate burst now until times (t, h) =
    let b = new rate burst in
    let (l, w, r, paid) = admit_bound b now until (omega arith) t t in
    let rest = rw r at (admits_bound (admit b now).1 l until times w h) in
    let whole : until ≡ now + (until - now) = omega arith in
    ground (arith, rest, paid, mul-add rate now (until - now), ap (λ (t : ℕ). rate * t) whole)
