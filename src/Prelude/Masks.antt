-- ===== src/Prelude/Masks.antt =====
-- Laws of the bitwise and, or and exclusive or where one side is a mask or a power of two.
use Prim.Native.Nat.{
  ℕ, zero, suc, ◌+◌, ◌-◌, ◌*◌, ◌/◌, ◌%◌, ◌^◌, ◌<◌, min, max, bit_and, bit_and-bitwise, bit_or,
  bit_or-bitwise, bit_xor,
}
use mathlib.Core.Path.{◌≡◌, sym, ap, ◌∙◌}
use native.Mathlib.Nat.{pow-suc, div-div-eq-div-mul, mul_assoc, mul-one, div-one, one-le-pow}
use native.Mathlib.Omega.{arith}
use warren_sdk_rs.Prelude.Digits.{bitwise_step}
use warren_sdk_rs.Prelude.Bits.{bit_xor_step, zero-bit_xor, xor_comm}

-- The lowest digit of the and and of the or, the others from the halves.
and_empty : (b : ℕ) → bit_and 0 b ≡ 0
and_empty b = bit_and-bitwise 0 b

bit_and-halves : (a b : ℕ) → bit_and a b ≡ bit_and (a / 2) (b / 2) * 2 + min (a % 2) (b % 2)
bit_and-halves zero b = omega (arith, and_empty b, and_empty (b / 2))
bit_and-halves (suc a) b = omega (
  arith,
  bitwise_step (λ c. 0) min a b,
  bit_and-bitwise (suc a) b,
  bit_and-bitwise (suc a / 2) (b / 2),
)

or_empty : (b : ℕ) → bit_or 0 b ≡ b
or_empty b = bit_or-bitwise 0 b

bit_or-halves : (a b : ℕ) → bit_or a b ≡ bit_or (a / 2) (b / 2) * 2 + max (a % 2) (b % 2)
bit_or-halves zero b = omega (arith, or_empty b, or_empty (b / 2))
bit_or-halves (suc a) b = omega (
  arith,
  bitwise_step (λ c. c) max a b,
  bit_or-bitwise (suc a) b,
  bit_or-bitwise (suc a / 2) (b / 2),
)

-- A number and a mask of `k` digits.
pub bit_and-ones : (p a : ℕ) → a < 2 ^ p → bit_and a (2 ^ p - 1) ≡ a
bit_and-ones zero zero h = and_empty 0
bit_and-ones zero (suc a) h = absurd (omega arith)
bit_and-ones (suc p) a h =
    let half : (2 ^ suc p - 1) / 2 ≡ 2 ^ p - 1 = omega (arith, pow-suc 2 p) in
    omega (
      arith,
      pow-suc 2 p,
      bit_and-halves a (2 ^ suc p - 1),
      ap (λ (t : ℕ). bit_and (a / 2) t) half,
      bit_and-ones p (a / 2) (omega (arith, pow-suc 2 p)),
    )

pub pow-pos : (k : ℕ) → 0 < 2 ^ k
pow-pos k = one-le-pow k 2 (omega arith)

-- The quotient by a power of two, one digit at a time.
pub div_pow-suc : (k a : ℕ) → a / 2 ^ suc k ≡ a / 2 / 2 ^ k
div_pow-suc k a =
    ap (λ (t : ℕ). a / t) {y = 2 * 2 ^ k} (omega (arith, pow-suc 2 k))
    ∙ sym (div-div-eq-div-mul a 2 (2 ^ k))

pub mul_pow-suc : (k b : ℕ) → b * 2 ^ suc k ≡ b * 2 ^ k * 2
mul_pow-suc k b = ap (λ (t : ℕ). b * t) (pow-suc 2 k) ∙ sym (mul_assoc b (2 ^ k) 2)

-- The factor `2 ^ k` moves out of the operation.
pub bit_and-shift : (k a b : ℕ) → bit_and a (b * 2 ^ k) ≡ bit_and (a / 2 ^ k) b * 2 ^ k
bit_and-shift zero a b =
    ap (bit_and a) {y = b} (omega arith)
    ∙ ap (λ (t : ℕ). bit_and t b) {y = a / 1} (sym (div-one a))
    ∙ sym (mul-one (bit_and (a / 1) b))
bit_and-shift (suc k) a b =
    let half : b * 2 ^ suc k / 2 ≡ b * 2 ^ k = omega (arith, mul_pow-suc k b) in
    let even : b * 2 ^ suc k % 2 ≡ 0 = omega (arith, mul_pow-suc k b) in
    let step : bit_and a (b * 2 ^ suc k) ≡ bit_and (a / 2) (b * 2 ^ k) * 2 =
      omega (arith, bit_and-halves a (b * 2 ^ suc k), ap (bit_and (a / 2)) half) in
    let inner : bit_and (a / 2) (b * 2 ^ k) ≡ bit_and (a / 2 ^ suc k) b * 2 ^ k =
      bit_and-shift k (a / 2) b ∙ ap (λ (t : ℕ). bit_and t b * 2 ^ k) (sym (div_pow-suc k a)) in
    step ∙ ap (λ (t : ℕ). t * 2) inner ∙ sym (mul_pow-suc k (bit_and (a / 2 ^ suc k) b))

pub bit_xor-shift : (k b : ℕ) → bit_xor (b * 2 ^ k) (2 ^ k) ≡ bit_xor b 1 * 2 ^ k
bit_xor-shift zero b =
    ap (λ (t : ℕ). bit_xor t 1) {y = b} (omega arith) ∙ sym (mul-one (bit_xor b 1))
bit_xor-shift (suc k) b =
    let half : b * 2 ^ suc k / 2 ≡ b * 2 ^ k = omega (arith, mul_pow-suc k b) in
    let half_one : 2 ^ suc k / 2 ≡ 2 ^ k = omega (arith, pow-suc 2 k) in
    let step : bit_xor (b * 2 ^ suc k) (2 ^ suc k) ≡ bit_xor (b * 2 ^ k) (2 ^ k) * 2 = omega (
      arith,
      bit_xor_step (b * 2 ^ suc k) (2 ^ suc k),
      ap (λ (t : ℕ). bit_xor t (2 ^ suc k / 2)) half,
      ap (bit_xor (b * 2 ^ k)) half_one,
      mul_pow-suc k b,
      pow-suc 2 k,
    ) in
    step ∙ ap (λ (t : ℕ). t * 2) (bit_xor-shift k b) ∙ sym (mul_pow-suc k (bit_xor b 1))

-- The exclusive or with 1 flips the lowest digit.
pub bit_xor-one : (b : ℕ) → bit_xor b 1 ≡ b / 2 * 2 + (1 - b % 2)
bit_xor-one b = omega (arith, bit_xor_step b 1, xor_comm (b / 2) 0, zero-bit_xor (b / 2))

-- The and and the or with no digit at all, on the digits that a number below `2 ^ k` has.
and_none : (k a : ℕ) → a < 2 ^ k → bit_and a 0 ≡ 0
and_none zero a h = ap (λ (t : ℕ). bit_and t 0) {y = 0} (omega arith) ∙ and_empty 0
and_none (suc k) a h =
    omega (arith, bit_and-halves a 0, pow-suc 2 k, and_none k (a / 2) (omega (arith, pow-suc 2 k)))

or_none : (k a : ℕ) → a < 2 ^ k → bit_or a 0 ≡ a
or_none zero a h = ap (λ (t : ℕ). bit_or t 0) {y = 0} (omega arith) ∙ or_empty 0 ∙ omega arith
or_none (suc k) a h =
    omega (arith, bit_or-halves a 0, pow-suc 2 k, or_none k (a / 2) (omega (arith, pow-suc 2 k)))

lt-pow : (a : ℕ) → a < 2 ^ a
lt-pow zero = omega arith
lt-pow (suc a) = omega (arith, pow-suc 2 a, lt-pow a)

pub bit_and-zero : (a : ℕ) → bit_and a 0 ≡ 0
bit_and-zero a = and_none a a (lt-pow a)

-- Where no digit is in both, the or is the sum.
pub bit_or-add : (k q i : ℕ) → i < 2 ^ k → bit_or (q * 2 ^ k) i ≡ q * 2 ^ k + i
bit_or-add zero q zero h = or_none (q * 2 ^ 0) (q * 2 ^ 0) (lt-pow (q * 2 ^ 0)) ∙ omega arith
bit_or-add zero q (suc i) h = absurd (omega arith)
bit_or-add (suc k) q i h =
    let half : q * 2 ^ suc k / 2 ≡ q * 2 ^ k = omega (arith, mul_pow-suc k q) in
    omega (
      arith,
      bit_or-halves (q * 2 ^ suc k) i,
      ap (λ (t : ℕ). bit_or t (i / 2)) half,
      bit_or-add k q (i / 2) (omega (arith, pow-suc 2 k)),
      mul_pow-suc k q,
    )
