-- ===== src/Bytes.antt =====
-- Byte buffers, the outcome of code that may refuse a packet or panic, and the checksum functions
-- of the engine, which are parameters. Used by crates/warren-bolthole-core/src/{error,ip,icmp}.rs.
pub mod Laws
use warren_sdk_rs.Prelude.{
  ℕ, zero, suc, ◌+◌, ◌-◌, ◌*◌, ◌/◌, ◌%◌, Bool, true, false, ◌&&◌, Option, none, some, List, [], ◌∷◌,
  ltb, leb, if◌then◌else◌, length, get_elem?,
}

-- `PacketError`.
pub data PacketError : Type 0 where
  truncated bad_version fragment extension_header unsupported_protocol : PacketError
  family_mismatch not_an_echo not_an_icmp_error : PacketError

-- `panic` stands for an index or a slice out of bounds.
pub data Checked {ℓ} (A : Type ℓ) : Type ℓ where
  ok : A → Checked A
  err : PacketError → Checked A
  panic : Checked A

infixl 5 ◌>>=◌ ◌>>◌
abbrev pub ◌>>=◌ {ℓ κ} : {A : Type ℓ} {B : Type κ} → Checked A → (A → Checked B) → Checked B
ok a >>= f = f a
err e >>= f = err e
panic >>= f = panic

abbrev pub ◌>>◌ {ℓ} : {B : Type ℓ} → Checked (Unit {0}) → Checked B → Checked B
m >> k = m >>= λ _. k

-- `if refuse { return Err(e) }`.
abbrev pub refuse : Bool → PacketError → Checked (Unit {0})
refuse true e = err e
refuse false e = ok tt

-- `o.ok_or(e)?`.
abbrev pub ok_or {ℓ} : {A : Type ℓ} → Option A → PacketError → Checked A
ok_or none e = err e
ok_or (some a) e = ok a

-- `pkt[i]`.
unfoldable pub index : List ℕ → ℕ → Checked ℕ
index pkt i = elim (get_elem? pkt i) [ none ↦ panic | some b ↦ ok b ]

-- The `n` bytes from `at` on; fewer where the buffer ends before.
unfoldable pub bytes : ℕ → ℕ → List ℕ → List ℕ
bytes at zero pkt = []
bytes at (suc n) pkt =
    let rest = bytes (suc at) n pkt in elim (get_elem? pkt at) [ none ↦ [] | some b ↦ b ∷ rest ]

-- `&pkt[at..at + n]`.
unfoldable pub slice : ℕ → ℕ → List ℕ → Checked (List ℕ)
slice at n pkt = if leb (at + n) (length pkt) then ok (bytes at n pkt) else panic

-- `pkt.get(at..end)`.
unfoldable pub get_range : List ℕ → ℕ → ℕ → Option (List ℕ)
get_range pkt at end =
    if leb at end && leb end (length pkt) then some (bytes at (end - at) pkt) else none

-- `new` written over the buffer from `at` on.
unfoldable pub overwrite : ℕ → List ℕ → List ℕ → List ℕ
overwrite at new [] = []
overwrite zero [] pkt = pkt
overwrite zero (n ∷ new) (b ∷ pkt) = n ∷ overwrite zero new pkt
overwrite (suc at) new (b ∷ pkt) = b ∷ overwrite at new pkt

-- `pkt[at..at + new.len()].copy_from_slice(&new)`.
unfoldable pub copy_at : ℕ → List ℕ → List ℕ → Checked (List ℕ)
copy_at at new pkt = if leb (at + length new) (length pkt) then ok (overwrite at new pkt) else panic

-- `u16::from_be_bytes` and `u16::to_be_bytes`.
abbrev pub from_be : ℕ → ℕ → ℕ
from_be high low = high * 256 + low

abbrev pub to_be : ℕ → List ℕ
to_be v = (v / 256) ∷ (v % 256) ∷ []

-- `u16::from_be_bytes([pkt[at], pkt[at + 1]])`.
unfoldable pub index16 : List ℕ → ℕ → Checked ℕ
unfolding index
index16 pkt at = do high ← index pkt at; low ← index pkt (at + 1); ok (from_be high low)

-- `warrenguard_transport_core`: the RFC 1624 update of a checksum over one word, the RFC 1071
-- checksum of a buffer from a seed, and the pseudo-header sum of ICMPv6.
pub record Checksum : Type 0 where
  pub incremental_checksum_update : ℕ → ℕ → ℕ → ℕ
  pub internet_checksum : ℕ → List ℕ → ℕ
  pub icmpv6_pseudo_sum : List ℕ → List ℕ → ℕ → ℕ
