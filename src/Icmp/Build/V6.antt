-- ===== src/Icmp/Build/V6.antt =====
-- crates/warren-bolthole-core/src/icmp.rs: the ICMPv6 messages that the gateway builds itself.
pub mod Returns
use warren_sdk_rs.Prelude.{
  ℕ, ◌-◌, ◌/◌, ◌%◌, min, Bool, not, ◌||◌, Option, none, some, List, [], ◌∷◌, ◌++◌, ltb, ◌==◌,
  if◌then◌else◌, length, replicate,
}
use warren_sdk_rs.Prelude.Map.{list_beq}
use warren_sdk_rs.Bytes.{Checked, ok, err, panic, ◌>>=◌, get_range, copy_at, to_be, Checksum}
use warren_sdk_rs.Ip.{IpHeader, v4, v6, parse_ip, proto_icmpv6, ipv6_header}
use warren_sdk_rs.Icmp.Build.{first_octet, quotes_an_error}

abbrev pub icmpv6_max : ℕ
icmpv6_max = 1280

-- Multicast, unspecified and loopback addresses are not unicast.
unfoldable pub unicast_v6 : List ℕ → Bool
unfolding list_beq replicate
unicast_v6 octets = not (
    first_octet octets (λ a. a == 255)
    || list_beq octets (replicate 16 0)
    || list_beq octets (replicate 15 0 ++ (1 ∷ [])))

-- The checksum is that of the body over the pseudo-header, and stands in the body's second word.
unfoldable pub frame_v6 : Checksum → List ℕ → List ℕ → List ℕ → Checked (Option (List ℕ))
frame_v6 c src dst body =
    let payload = length body in
    let head = 0x60 ∷ 0 ∷ 0 ∷ 0 ∷ (payload / 256) ∷ (payload % 256) ∷ proto_icmpv6 ∷ 64 ∷ [] in
    if ltb 65535 payload then ok none else do
      body' ←
          copy_at 2 (to_be (c.internet_checksum (c.icmpv6_pseudo_sum src dst payload) body)) body
      ok (some (head ++ (src ++ (dst ++ body'))))

-- The reply to an echo request, once its header is parsed.
unfoldable pub echo_reply_of :
    Checksum → List ℕ → IpHeader → List ℕ → List ℕ → Checked (Option (List ℕ))
unfolding unicast_v6 frame_v6
echo_reply_of c request hdr src dst =
    if not (hdr.protocol == proto_icmpv6) || not (unicast_v6 src)
    then ok none
    else elim (get_range request hdr.l4_offset hdr.total_len) [
      | none ↦ ok none
      | some msg ↦ elim msg [
        | [] ↦ ok none
        | kind ∷ rest ↦
            if ltb (length (kind ∷ rest)) 8 || not (kind == 128)
            then ok none
            else (do body ← copy_at 2 (0 ∷ 0 ∷ []) (129 ∷ rest); frame_v6 c dst src body)
      ]
    ]

unfoldable pub build_echo_reply_v6 : Checksum → List ℕ → Checked (Option (List ℕ))
unfolding echo_reply_of
build_echo_reply_v6 c request = elim (parse_ip request) [
  | ok hdr ↦ elim hdr.src [
    | v4 src ↦ ok none
    | v6 src ↦ elim hdr.dst [ v4 dst ↦ ok none | v6 dst ↦ echo_reply_of c request hdr src dst ]
  ]
  | err e ↦ ok none
  | panic ↦ panic
]

-- The report on a packet, once its header is parsed: it quotes what fits the least MTU.
unfoldable pub unreachable_of : Checksum → List ℕ → List ℕ → IpHeader → Checked (Option (List ℕ))
unfolding unicast_v6 quotes_an_error frame_v6
unreachable_of c offending source hdr = elim hdr.src [
  | v4 dst ↦ ok none
  | v6 dst ↦
      if not (unicast_v6 dst) || quotes_an_error offending hdr
      then ok none
      else elim (get_range offending 0 (min hdr.total_len (icmpv6_max - ipv6_header - 8))) [
        | none ↦ ok none
        | some quote ↦ frame_v6 c source dst (1 ∷ 0 ∷ 0 ∷ 0 ∷ 0 ∷ 0 ∷ 0 ∷ 0 ∷ quote)
      ]
]

unfoldable pub build_unreachable_v6 : Checksum → List ℕ → List ℕ → Checked (Option (List ℕ))
unfolding unreachable_of
build_unreachable_v6 c offending source = elim (parse_ip offending) [
  | ok hdr ↦ unreachable_of c offending source hdr
  | err e ↦ ok none
  | panic ↦ panic
]
