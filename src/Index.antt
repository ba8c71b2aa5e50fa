-- ===== src/Index.antt =====
-- crates/warren-bolthole-core/src/index.rs: the session index generator, a 24-bit register.
pub mod Register
pub mod Issue
pub mod Distinct
use Prim.Native.Nat.{bit_and, bit_xor}
use warren_sdk_rs.Prelude.{
  ℕ, zero, suc, ◌-◌, ◌/◌, ◌%◌, ◌^◌, Bool, true, false, Option, none, some, ◌==◌, if◌then◌else◌,
}

abbrev pub max_index : ℕ
max_index = 0x00ff_ffff

abbrev pub lfsr_poly : ℕ
lfsr_poly = 0x00d8_0000

pub record IndexGen : Type 0 where
  pub initial : ℕ
  pub lfsr : ℕ
  pub mask : ℕ
  pub exhausted : Bool

-- `x & MAX_INDEX` keeps the low 24 bits.
unfoldable pub from_seed : ℕ → ℕ → IndexGen
from_seed seed mask =
    let low = seed % 2 ^ 24 in
    let start = if low == 0 then 1 else low in
    record { initial = start; lfsr = start; mask = mask % 2 ^ 24; exhausted = false }

-- `(lfsr >> 1) ^ (0u32.wrapping_sub(lfsr & 1) & LFSR_POLY)`.
unfoldable pub shift : ℕ → ℕ
shift lfsr = bit_xor (lfsr / 2) (bit_and ((2 ^ 32 - lfsr % 2) % 2 ^ 32) lfsr_poly)

-- One round of the loop of `next`, past its test: the state, and the index drawn.
unfoldable pub advance : IndexGen → ℕ × IndexGen
unfolding shift
advance g =
    let lfsr = shift g.lfsr in
    (
      bit_xor (g.lfsr - 1) g.mask,
      record g { lfsr = lfsr; exhausted = if lfsr == g.initial then true else g.exhausted },
    )

-- The loop of `next`, for at most `fuel` rounds; `none` says that these were not enough.
unfoldable pub next_rounds : ℕ → IndexGen → Option (Option ℕ × IndexGen)
unfolding advance
next_rounds zero g = none
next_rounds (suc fuel) g =
    let again = next_rounds fuel (advance g).1 in
    if g.exhausted
    then some (none, g)
    else if (advance g).0 == 0
    then again
    else some (some (advance g).0, (advance g).1)

-- Two rounds are enough: see `Index.Distinct`.
unfoldable pub next : IndexGen → Option (Option ℕ × IndexGen)
next g = next_rounds 2 g
