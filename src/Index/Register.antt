-- ===== src/Index/Register.antt =====
-- The register of index.rs: a shift is one-to-one and stays in its 24 bits.
use Prim.Native.Nat.{bit_and, bit_xor}
use warren_sdk_rs.Prelude.{
  ℕ, zero, suc, ◌-◌, ◌/◌, ◌%◌, ◌^◌, ◌≤◌, ◌<◌, ◌≡◌, ◌≢◌, ◌⊎◌, inl, inr, refl, sym, ◌∙◌, arith,
}
use warren_sdk_rs.Prelude.Bits.{xor_lt, xor-injective, xor_ne_below, xor_comm, zero-bit_xor}
use warren_sdk_rs.Index.{shift, lfsr_poly}

zero_xor : (b : ℕ) → bit_xor b 0 ≡ b
zero_xor b = xor_comm b 0 ∙ zero-bit_xor b

-- An even register is halved, an odd one is halved and combined with the polynomial.
shift_cases :
    (l : ℕ)
    → ((l % 2 ≡ 0) × (shift l ≡ l / 2)) ⊎ ((l % 2 ≡ 1) × (shift l ≡ bit_xor (l / 2) lfsr_poly))
unfolding shift
shift_cases l = go (l % 2) refl
  where
    go :
        (r : ℕ)
        → l % 2 ≡ r
        → ((l % 2 ≡ 0) × (bit_xor (l / 2) (bit_and ((2 ^ 32 - l % 2) % 2 ^ 32) lfsr_poly) ≡ l / 2))
          ⊎ ((l % 2 ≡ 1)
              × (bit_xor (l / 2) (bit_and ((2 ^ 32 - l % 2) % 2 ^ 32) lfsr_poly)
                  ≡ bit_xor (l / 2) lfsr_poly))
    go zero e = inl (e, rw e (zero_xor (l / 2)))
    go (suc zero) e = inr (e, rw e refl)
    go (suc (suc r)) e = absurd (omega arith)

-- The register's values: 24 bits, not all zero.
abbrev pub InRange : ℕ → Type 0
InRange l = (1 ≤ l) × (l < 2 ^ 24)

nonzero : (l : ℕ) → InRange l → 1 ≤ bit_xor (l / 2) lfsr_poly
nonzero l r =
    let ne : bit_xor (l / 2) lfsr_poly ≢ 0 =
      λ e. xor_ne_below 23 0 (l / 2) lfsr_poly (omega arith) (omega arith) (omega arith) (sym e) in
    omega (arith, ne)

pub shift-InRange : (l : ℕ) → InRange l → InRange (shift l)
shift-InRange l r = elim (shift_cases l) [
  | inl (even, e) ↦ rw e (omega arith, omega arith)
  | inr (odd, e) ↦ rw e (nonzero l r, xor_lt 24 (l / 2) lfsr_poly (omega arith) (omega arith))
]

pub shift-injective : (l m : ℕ) → InRange l → InRange m → shift l ≡ shift m → l ≡ m
shift-injective l m r s h = elim (shift_cases l) [
  | inl (even, e) ↦ elim (shift_cases m) [
    | inl (even', f) ↦ omega (arith, sym e ∙ h ∙ f)
    | inr (odd', f) ↦ absurd (
        xor_ne_below 23 (l / 2) (m / 2) lfsr_poly (omega arith) (omega arith) (omega arith)
          (sym e ∙ h ∙ f))
  ]
  | inr (odd, e) ↦ elim (shift_cases m) [
    | inl (even', f) ↦ absurd (
        xor_ne_below 23 (m / 2) (l / 2) lfsr_poly (omega arith) (omega arith) (omega arith)
          (sym f ∙ sym h ∙ e))
    | inr (odd', f) ↦ omega (arith, xor-injective lfsr_poly (l / 2) (m / 2) (sym e ∙ h ∙ f))
  ]
]
