-- ===== src/Prelude/Bits.antt =====
-- Laws of the exclusive or at variables, from the digits that the native operation stands for.
use Prim.Native.Nat.{
  ℕ, zero, suc, ◌+◌, ◌-◌, ◌*◌, ◌/◌, ◌%◌, ◌^◌, ◌≤◌, ◌<◌, bit_xor, bit_xor-bitwise, differ,
}
use mathlib.Core.Path.{◌≡◌, refl, sym, ap, ◌∙◌}
use native.Mathlib.Nat.{pow-suc}
use native.Mathlib.Omega.{arith}
use warren_sdk_rs.Prelude.Digits.{bitwise_step}

-- The digit of the result, for digits 0 and 1.
abbrev pub xor_bit : ℕ → ℕ → ℕ
xor_bit a b = (a - b) + (b - a)

differ_lem : (a b : ℕ) → differ a b ≡ xor_bit a b
differ_lem zero b = omega arith
differ_lem (suc a) zero = omega arith
differ_lem (suc a) (suc b) = omega (arith, differ_lem a b)

pub zero-bit_xor : (b : ℕ) → bit_xor 0 b ≡ b
zero-bit_xor b = bit_xor-bitwise 0 b

pub bit_xor_step : (a b : ℕ) → bit_xor a b ≡ bit_xor (a / 2) (b / 2) * 2 + xor_bit (a % 2) (b % 2)
bit_xor_step zero b = omega (arith, zero-bit_xor b, zero-bit_xor (b / 2))
bit_xor_step (suc a) b = omega (
  arith,
  bit_xor-bitwise (suc a) b,
  bit_xor-bitwise (suc a / 2) (b / 2),
  bitwise_step (λ c. c) differ a b,
  differ_lem (suc a % 2) (b % 2),
)

xor_xor_fuel : (n a b : ℕ) → a + b ≤ n → bit_xor (bit_xor a b) b ≡ a
xor_xor_fuel n zero zero h = refl
xor_xor_fuel zero a b h = absurd (omega arith)
xor_xor_fuel (suc n) a b h =
    let half : bit_xor a b / 2 ≡ bit_xor (a / 2) (b / 2) = omega (arith, bit_xor_step a b) in
    omega (
      arith,
      bit_xor_step a b,
      bit_xor_step (bit_xor a b) b,
      ap (λ (t : ℕ). bit_xor t (b / 2)) half,
      xor_xor_fuel n (a / 2) (b / 2) (omega arith),
    )

pub xor_xor : (a b : ℕ) → bit_xor (bit_xor a b) b ≡ a
xor_xor a b = xor_xor_fuel (a + b) a b (omega arith)

xor_comm_fuel : (n a b : ℕ) → a + b ≤ n → bit_xor a b ≡ bit_xor b a
xor_comm_fuel n zero zero h = refl
xor_comm_fuel zero a b h = absurd (omega arith)
xor_comm_fuel (suc n) a b h =
    omega (arith, bit_xor_step a b, bit_xor_step b a, xor_comm_fuel n (a / 2) (b / 2) (omega arith))

pub xor_comm : (a b : ℕ) → bit_xor a b ≡ bit_xor b a
xor_comm a b = xor_comm_fuel (a + b) a b (omega arith)

pub xor_lt : (k a b : ℕ) → a < 2 ^ k → b < 2 ^ k → bit_xor a b < 2 ^ k
xor_lt zero zero zero ha hb = omega arith
xor_lt zero a b ha hb = absurd (omega arith)
xor_lt (suc k) a b ha hb = omega (
  arith,
  bit_xor_step a b,
  pow-suc 2 k,
  xor_lt k (a / 2) (b / 2) (omega (arith, pow-suc 2 k)) (omega (arith, pow-suc 2 k)),
)

pub xor-injective : (c a b : ℕ) → bit_xor a c ≡ bit_xor b c → a ≡ b
xor-injective c a b h = sym (xor_xor a c) ∙ ap (λ (t : ℕ). bit_xor t c) h ∙ xor_xor b c

-- A number is told apart from its exclusive or with `c` by the top digit of `c`.
pub xor_ne_below : (k a b c : ℕ) → a < 2 ^ k → b < 2 ^ k → 2 ^ k ≤ c → a ≡ bit_xor b c → ⊥
xor_ne_below k a b c ha hb hc e =
    let back : bit_xor a b ≡ c = ap (λ (t : ℕ). bit_xor t b) (e ∙ xor_comm b c) ∙ xor_xor c b in
    omega (arith, xor_lt k a b ha hb, back)
