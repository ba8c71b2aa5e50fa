-- ===== src/Icmp/Build.antt =====
-- crates/warren-bolthole-core/src/icmp.rs: the ICMP messages that the gateway builds itself. `ok none`
-- is the source's `None`, and `panic` a slice out of bounds. An address is the list of its octets.
pub mod Frames
pub mod Quiet
pub mod V6
pub mod Returns
use warren_sdk_rs.Prelude.{
  ℕ, ◌+◌, ◌-◌, ◌/◌, ◌%◌, min, Bool, true, false, not, ◌&&◌, ◌||◌, Option, none, some, List, [], ◌∷◌,
  ◌++◌, ltb, leb, ◌==◌, if◌then◌else◌, length, get_elem?,
}
use warren_sdk_rs.Prelude.Map.{list_beq}
use warren_sdk_rs.Bytes.{Checked, ok, err, panic, ◌>>=◌, get_range, copy_at, to_be, Checksum}
use warren_sdk_rs.Ip.{IpHeader, v4, v6, is_icmp_error, parse_ip, proto_icmpv4, proto_icmpv6}

abbrev pub first_octet : List ℕ → (ℕ → Bool) → Bool
first_octet octets test = elim (get_elem? octets 0) [ none ↦ false | some a ↦ test a ]

-- Multicast, broadcast, unspecified and loopback addresses are not unicast.
unfoldable pub unicast_v4 : List ℕ → Bool
unfolding list_beq
unicast_v4 octets = not (
    first_octet octets (λ a. leb 224 a && leb a 239)
    || list_beq octets (255 ∷ 255 ∷ 255 ∷ 255 ∷ [])
    || list_beq octets (0 ∷ 0 ∷ 0 ∷ 0 ∷ [])
    || first_octet octets (λ a. a == 127))

unfoldable pub frame_v4 : Checksum → List ℕ → List ℕ → List ℕ → Checked (Option (List ℕ))
frame_v4 c src dst body =
    let total = 20 + length body in
    let head = λ (ck : ℕ).
      0x45
      ∷ 0
      ∷ (total / 256)
      ∷ (total % 256)
      ∷ 0
      ∷ 0
      ∷ 0
      ∷ 0
      ∷ 64
      ∷ proto_icmpv4
      ∷ (ck / 256)
      ∷ (ck % 256)
      ∷ [] in
    if ltb 65535 total then ok none else do
      body' ← copy_at 2 (to_be (c.internet_checksum 0 body)) body
      ok (some (head (c.internet_checksum 0 (head 0 ++ (src ++ dst))) ++ (src ++ (dst ++ body'))))

unfoldable pub quotes_an_error : List ℕ → IpHeader → Bool
unfolding is_icmp_error
quotes_an_error pkt hdr = elim (get_elem? pkt hdr.l4_offset) [
  | none ↦ false
  | some kind ↦ is_icmp_error hdr.protocol kind
]

-- The reply to a header, once it is parsed.
unfoldable pub unreachable_of : Checksum → List ℕ → List ℕ → IpHeader → Checked (Option (List ℕ))
unfolding unicast_v4 quotes_an_error frame_v4
unreachable_of c offending source hdr = elim hdr.src [
  | v6 dst ↦ ok none
  | v4 dst ↦
      if not (unicast_v4 dst) || quotes_an_error offending hdr
      then ok none
      else elim (get_range offending 0 (min (hdr.l4_offset + 8) hdr.total_len)) [
        | none ↦ ok none
        | some quote ↦ frame_v4 c source dst (3 ∷ 1 ∷ 0 ∷ 0 ∷ 0 ∷ 0 ∷ 0 ∷ 0 ∷ quote)
      ]
]

unfoldable pub build_unreachable_v4 : Checksum → List ℕ → List ℕ → Checked (Option (List ℕ))
unfolding unreachable_of
build_unreachable_v4 c offending source = elim (parse_ip offending) [
  | ok hdr ↦ unreachable_of c offending source hdr
  | err e ↦ ok none
  | panic ↦ panic
]

-- The reply to an echo request, once its header is parsed.
unfoldable pub echo_reply_of :
    Checksum → List ℕ → IpHeader → List ℕ → List ℕ → Checked (Option (List ℕ))
unfolding unicast_v4 frame_v4
echo_reply_of c request hdr src dst =
    if not (hdr.protocol == proto_icmpv4) || not (unicast_v4 src)
    then ok none
    else elim (get_range request hdr.l4_offset hdr.total_len) [
      | none ↦ ok none
      | some msg ↦ elim msg [
        | [] ↦ ok none
        | kind ∷ rest ↦
            if ltb (length (kind ∷ rest)) 8 || not (kind == 8)
            then ok none
            else (do body ← copy_at 2 (0 ∷ 0 ∷ []) (0 ∷ rest); frame_v4 c dst src body)
      ]
    ]

unfoldable pub build_echo_reply_v4 : Checksum → List ℕ → Checked (Option (List ℕ))
unfolding echo_reply_of
build_echo_reply_v4 c request = elim (parse_ip request) [
  | ok hdr ↦ elim hdr.src [
    | v6 src ↦ ok none
    | v4 src ↦ elim hdr.dst [ v6 dst ↦ ok none | v4 dst ↦ echo_reply_of c request hdr src dst ]
  ]
  | err e ↦ ok none
  | panic ↦ panic
]
