-- ===== src/Prelude/Digits.antt =====
-- One step of an operation on the binary digits of two numbers, whatever it does to a digit.
use Prim.Native.Nat.{ℕ, zero, suc, ◌+◌, ◌-◌, ◌*◌, ◌/◌, ◌%◌, ◌≤◌, digits, bitwise}
use mathlib.Core.Path.{◌≡◌, refl, ap, ◌∙◌}
use native.Mathlib.Omega.{arith}

module _ (z : ℕ → ℕ) (f : ℕ → ℕ → ℕ) where
  -- A count of digits that the first number does not need changes nothing.
  one_more : (n a b : ℕ) → a ≤ n → digits z f (suc n) a b ≡ digits z f n a b
  one_more zero zero b h = refl
  one_more (suc n) zero b h = refl
  one_more zero (suc a) b h = absurd (omega arith)
  one_more (suc n) (suc a) b h =
      ap (λ t. t * 2 + f (suc a % 2) (b % 2)) (one_more n (suc a / 2) (b / 2) (omega arith))

  spare : (d a b : ℕ) → digits z f (a + d) a b ≡ bitwise z f a b
  spare zero a b = ap (λ (t : ℕ). digits z f t a b) {y = a} (omega arith)
  spare (suc d) a b =
      ap (λ (t : ℕ). digits z f t a b) {y = suc (a + d)} (omega arith)
      ∙ one_more (a + d) a b (omega arith)
      ∙ spare d a b

  pub bitwise_step :
      (a b : ℕ)
      → bitwise z f (suc a) b ≡ bitwise z f (suc a / 2) (b / 2) * 2 + f (suc a % 2) (b % 2)
  bitwise_step a b =
      let half : ℕ = suc a / 2 in
      ap (λ (t : ℕ). digits z f t half (b / 2) * 2 + f (suc a % 2) (b % 2)) {x = a}
        {y = half + (a - half)} (omega arith)
      ∙ ap (λ (t : ℕ). t * 2 + f (suc a % 2) (b % 2)) (spare (a - half) half (b / 2))
