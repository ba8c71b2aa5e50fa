-- ===== src/Ip/Parse.antt =====
-- `parse` of ip.rs never reads out of bounds, and the header it returns fits the packet.
use warren_sdk_rs.Prelude.{
  ℕ, ◌+◌, ◌*◌, ◌/◌, ◌%◌, ◌^◌, ◌≤◌, ◌≡◌, ◌⊎◌, inl, inr, refl, Bool, true, false, not, ◌||◌,
  Bool-cases, Option-cases, List, arith, ltb, ◌==◌, min, if◌then◌else◌, length, get_elem?,
}
use warren_sdk_rs.Bytes.{Checked, ok, err, panic, truncated, from_be}
use warren_sdk_rs.Bytes.Laws.{byte, index-byte, index16-bytes, slice-bytes, length-bytes}
use warren_sdk_rs.Ip.{
  IpAddr, v4, v6, IpHeader, is_v6, is_extension_header, length_of, parse_v4, parse_v6,
  parse_version, parse,
}

-- An address has the octets of its family.
unfoldable pub Sized : IpAddr → Type 0
Sized (v4 octets) = length octets ≡ 4
Sized (v6 octets) = length octets ≡ 16

-- A header that the packet can hold, of the family that its addresses have.
pub record Fits (pkt : List ℕ) (quoted : Bool) (hdr : IpHeader) : Type 0 where
  pub within : hdr.total_len ≤ length pkt
  pub room : (if is_v6 hdr then 40 else 20) ≤ hdr.l4_offset
  pub held : hdr.l4_offset ≤ length pkt
  pub declared : quoted ≡ false → hdr.l4_offset ≤ hdr.total_len
  pub source_sized : Sized hdr.src
  pub destination_sized : Sized hdr.dst

-- What `parse` may return: a header that fits, or an error; not a panic.
unfoldable pub Parsed : List ℕ → Bool → Checked IpHeader → Type 0
Parsed pkt quoted (ok hdr) = Fits pkt quoted hdr
Parsed pkt quoted (err e) = Unit {0}
Parsed pkt quoted panic = ⊥

-- The length that a quote or a packet has: within the buffer, and as declared outside a quote.
length_of_cases :
    (quoted : Bool) (declared len : ℕ)
    → (length_of quoted declared len ≡ err truncated)
      ⊎ ((total : ℕ) × (length_of quoted declared len ≡ ok total)
          × (total ≤ len)
          × (quoted ≡ false → total ≡ declared))
length_of_cases true declared len = inr (min declared len, refl, omega arith, λ e. cc)
length_of_cases false declared len = elim (Bool-cases (ltb len declared)) [
  | inl long ↦ inl (rw long)
  | inr fits ↦ inr (declared, rw fits, ground arith, λ _. refl)
]

module _ (pkt : List ℕ) (quoted : Bool) where
  parse_v4-Parsed : (first : ℕ) → Parsed pkt quoted (parse_v4 pkt quoted first)
  unfolding parse_v4 Parsed Sized
  parse_v4-Parsed first = elim (Bool-cases (ltb (length pkt) 20)) [
    | inl short ↦ rw short tt
    | inr long ↦
        let ihl = first % 16 * 4 in
        let declared = from_be (byte pkt 2) (byte pkt (2 + 1)) in
        let frag = from_be (byte pkt 6) (byte pkt (6 + 1)) in
        rw (long, index16-bytes pkt 2 (ground arith))
          (elim (Bool-cases (ltb ihl 20 || ltb declared ihl || ltb (length pkt) ihl)) [
            | inl bad ↦ rw bad tt
            | inr good ↦ elim (length_of_cases quoted declared (length pkt)) [
              | inl e ↦ rw (good, e) tt
              | inr (total, e, within, whole) ↦
                  rw (good, e, index16-bytes pkt 6 (ground arith))
                    (elim (Bool-cases (not (frag % 2 ^ 14 == 0))) [
                      | inl part ↦ rw part tt
                      | inr one ↦
                          rw
                            (
                              one,
                              slice-bytes 12 4 pkt (ground arith),
                              slice-bytes 16 4 pkt (ground arith),
                              index-byte pkt 9 (ground arith),
                            )
                            (record {
                              within = within;
                              room = ground arith;
                              held = ground arith;
                              declared = λ q. ground (arith, whole q);
                              source_sized = length-bytes 12 4 pkt (ground arith);
                              destination_sized = length-bytes 16 4 pkt (ground arith);
                            })
                    ])
            ]
          ])
  ]

  parse_v6-Parsed : Parsed pkt quoted (parse_v6 pkt quoted)
  unfolding parse_v6 Parsed Sized
  parse_v6-Parsed = elim (Bool-cases (ltb (length pkt) 40)) [
    | inl short ↦ rw short tt
    | inr long ↦
        let declared = 40 + from_be (byte pkt 4) (byte pkt (4 + 1)) in
        rw (long, index16-bytes pkt 4 (ground arith))
          (elim (length_of_cases quoted declared (length pkt)) [
            | inl e ↦ rw e tt
            | inr (total, e, within, whole) ↦
                rw (e, index-byte pkt 6 (ground arith))
                  (elim (Bool-cases (is_extension_header (byte pkt 6))) [
                    | inl extended ↦ rw extended tt
                    | inr plain ↦
                        rw
                          (
                            plain,
                            slice-bytes 8 16 pkt (ground arith),
                            slice-bytes 24 16 pkt (ground arith),
                          )
                          (record {
                            within = within;
                            room = omega arith;
                            held = ground arith;
                            declared = λ q. ground (arith, whole q);
                            source_sized = length-bytes 8 16 pkt (ground arith);
                            destination_sized = length-bytes 24 16 pkt (ground arith);
                          })
                  ])
          ])
  ]

  -- Whatever the bytes, `parse` does not panic, and a header that it returns lies within the packet,
  -- its transport offset past the fixed header, in the packet and, outside a quote, within the declared
  -- length; its addresses have the octets of their family.
  pub parse-Parsed : Parsed pkt quoted (parse pkt quoted)
  unfolding parse parse_version
  parse-Parsed = elim (Option-cases (get_elem? pkt 0)) [
    | inl e ↦ rw e (unfold Parsed in tt)
    | inr (first, e) ↦ rw e (elim (Bool-cases (first / 16 == 4)) [
      | inl four ↦ rw four (parse_v4-Parsed first)
      | inr other ↦ elim (Bool-cases (first / 16 == 6)) [
        | inl six ↦ rw (other, six) parse_v6-Parsed
        | inr neither ↦ rw (other, neither) (unfold Parsed in tt)
      ]
    ])
  ]
