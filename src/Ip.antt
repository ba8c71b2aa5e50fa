-- ===== src/Ip.antt =====
-- crates/warren-bolthole-core/src/ip.rs: the IP and transport headers that the gateway reads and
-- rewrites. A packet is a list of bytes, an address the list of its octets with its family.
pub mod Parse
pub mod Rewrite
use warren_sdk_rs.Prelude.{
  ℕ, zero, suc, ◌+◌, ◌-◌, ◌*◌, ◌/◌, ◌%◌, ◌^◌, Bool, true, false, not, ◌&&◌, ◌||◌, Option, none,
  some, List, [], ◌∷◌, ltb, leb, ◌==◌, min, if◌then◌else◌, length, get_elem?,
}
use warren_sdk_rs.Prelude.Map.{Eq}
use warren_sdk_rs.Bytes.{
  Checked, ok, err, panic, ◌>>=◌, ◌>>◌, refuse, ok_or, truncated, bad_version, fragment,
  extension_header, unsupported_protocol, index, index16, slice, get_range, from_be,
}

abbrev pub proto_icmpv4 : ℕ
proto_icmpv4 = 1

abbrev pub proto_tcp : ℕ
proto_tcp = 6

abbrev pub proto_udp : ℕ
proto_udp = 17

abbrev pub proto_icmpv6 : ℕ
proto_icmpv6 = 58

abbrev pub ipv4_min_header : ℕ
ipv4_min_header = 20

abbrev pub ipv6_header : ℕ
ipv6_header = 40

pub data IpAddr : Type 0 where
  v4 : List ℕ → IpAddr
  v6 : List ℕ → IpAddr

abbrev pub is_ipv6 : IpAddr → Bool
is_ipv6 (v4 octets) = false
is_ipv6 (v6 octets) = true

abbrev pub is_ipv4 : IpAddr → Bool
is_ipv4 (v4 octets) = true
is_ipv4 (v6 octets) = false

-- An IPv6 socket address has a flow label and a scope; an IPv4 one has neither, and both are then 0.
pub record SocketAddr : Type 0 where
  pub ip : IpAddr
  pub port : ℕ
  pub flowinfo : ℕ
  pub scope_id : ℕ

-- `SocketAddr::new` and `SocketAddr::from`.
abbrev pub socket_addr : IpAddr → ℕ → SocketAddr
socket_addr ip port = record { ip = ip; port = port; flowinfo = 0; scope_id = 0 }

pub data Side : Type 0 where
  source destination : Side

pub record IpHeader : Type 0 where
  pub src : IpAddr
  pub dst : IpAddr
  pub protocol : ℕ
  pub l4_offset : ℕ
  pub total_len : ℕ

abbrev pub is_v6 : IpHeader → Bool
is_v6 hdr = is_ipv6 hdr.src

pub record IcmpHeader : Type 0 where
  pub kind : ℕ
  pub code : ℕ
  pub echo_id : Option ℕ

unfoldable pub is_echo : ℕ → ℕ → Bool
is_echo protocol kind =
    if protocol == proto_icmpv4
    then kind == 8 || kind == 0
    else if protocol == proto_icmpv6
    then kind == 128 || kind == 129
    else false

unfoldable pub is_icmp_error : ℕ → ℕ → Bool
is_icmp_error protocol kind =
    if protocol == proto_icmpv4
    then kind == 3 || kind == 4 || kind == 5 || kind == 11 || kind == 12
    else if protocol == proto_icmpv6
    then leb 1 kind && leb kind 4
    else false

unfoldable pub is_extension_header : ℕ → Bool
is_extension_header next =
    next == 0
    || next == 43
    || next == 44
    || next == 50
    || next == 51
    || next == 59
    || next == 60
    || next == 135
    || next == 139
    || next == 140

-- `min(declared, len)` in a quote, and `declared` elsewhere, where a longer one is refused.
abbrev pub length_of : Bool → ℕ → ℕ → Checked ℕ
length_of quoted declared len =
    if quoted
    then ok (min declared len)
    else if ltb len declared
    then err truncated
    else ok declared

-- The arm of `parse` for version 4. `frag & 0x2000` and `frag & 0x1fff` are both zero where bits 0
-- to 13 are.
unfoldable pub parse_v4 : List ℕ → Bool → ℕ → Checked IpHeader
parse_v4 pkt quoted first = do
  refuse (ltb (length pkt) ipv4_min_header) truncated
  let ihl = first % 16 * 4
  declared ← index16 pkt 2
  refuse (ltb ihl ipv4_min_header || ltb declared ihl || ltb (length pkt) ihl) truncated
  total_len ← length_of quoted declared (length pkt)
  frag ← index16 pkt 6
  refuse (not (frag % 2 ^ 14 == 0)) fragment
  src ← slice 12 4 pkt
  dst ← slice 16 4 pkt
  protocol ← index pkt 9
  ok (record {
    src = v4 src;
    dst = v4 dst;
    protocol = protocol;
    l4_offset = ihl;
    total_len = total_len;
  })

unfoldable pub parse_v6 : List ℕ → Bool → Checked IpHeader
parse_v6 pkt quoted = do
  refuse (ltb (length pkt) ipv6_header) truncated
  payload ← index16 pkt 4
  total_len ← length_of quoted (ipv6_header + payload) (length pkt)
  next ← index pkt 6
  refuse (is_extension_header next) extension_header
  src ← slice 8 16 pkt
  dst ← slice 24 16 pkt
  ok (record {
    src = v6 src;
    dst = v6 dst;
    protocol = next;
    l4_offset = ipv6_header;
    total_len = total_len;
  })

-- The `match` on the version nibble.
unfoldable pub parse_version : List ℕ → Bool → ℕ → Checked IpHeader
parse_version pkt quoted first =
    if first / 16 == 4
    then parse_v4 pkt quoted first
    else if first / 16 == 6
    then parse_v6 pkt quoted
    else err bad_version

unfoldable pub parse : List ℕ → Bool → Checked IpHeader
parse pkt quoted = do first ← ok_or (get_elem? pkt 0) truncated; parse_version pkt quoted first

abbrev pub parse_ip : List ℕ → Checked IpHeader
parse_ip pkt = parse pkt false

abbrev pub parse_ip_quote : List ℕ → Checked IpHeader
parse_ip_quote pkt = parse pkt true

unfoldable pub read_ports : List ℕ → ℕ → Checked (ℕ × ℕ)
read_ports pkt l4 = do
  head ← ok_or (get_range pkt l4 (l4 + 4)) truncated
  sport ← index16 head 0
  dport ← index16 head 2
  ok (sport, dport)

unfoldable pub tcp_flags : List ℕ → ℕ → Checked ℕ
tcp_flags pkt l4 = ok_or (get_elem? pkt (l4 + 13)) truncated

-- `pkt.get(at..at + 2).map(|b| u16::from_be_bytes([b[0], b[1]]))`.
unfoldable pub get16 : List ℕ → ℕ → Checked (Option ℕ)
get16 pkt at = elim (get_range pkt at (at + 2)) [
  | none ↦ ok none
  | some b ↦ do id ← index16 b 0; ok (some id)
]

unfoldable pub read_icmp : List ℕ → ℕ → Checked IcmpHeader
unfolding get16
read_icmp pkt l4 = do
  head ← ok_or (get_range pkt l4 (l4 + 4)) truncated
  kind ← index head 0
  code ← index head 1
  echo_id ←
      (if kind == 0 || kind == 8 || kind == 128 || kind == 129 then get16 pkt (l4 + 4) else ok none)
  ok (record { kind = kind; code = code; echo_id = echo_id })
