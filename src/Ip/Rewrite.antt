-- ===== src/Ip/Rewrite.antt =====
-- `rewrite_endpoint` of ip.rs. It refuses before it writes, so an error says that the packet is as
-- it was, and the result is the packet rewritten.
use warren_sdk_rs.Prelude.{
  ℕ, ◌+◌, Bool, true, false, not, ◌&&◌, ◌||◌, Option, none, some, List, ◌∷◌, ltb, ◌==◌,
  if◌then◌else◌, length, get_elem?,
}
use warren_sdk_rs.Bytes.{
  Checked, ok, ◌>>=◌, ◌>>◌, refuse, ok_or, truncated, unsupported_protocol, family_mismatch,
  not_an_echo, index16, slice, copy_at, from_be, to_be, Checksum,
}
use warren_sdk_rs.Ip.{
  IpAddr, v4, v6, IpHeader, Side, source, destination, is_v6, is_ipv6, is_echo, proto_icmpv4,
  proto_icmpv6, proto_tcp, proto_udp,
}

-- Where the checksum is, whether it covers the addresses, and the bytes that the header needs.
unfoldable pub l4_checksum : ℕ → Option (ℕ × Bool × ℕ)
l4_checksum protocol =
    if protocol == proto_tcp
    then some (16, true, 20)
    else if protocol == proto_udp
    then some (6, true, 8)
    else if protocol == proto_icmpv4
    then some (2, false, 4)
    else if protocol == proto_icmpv6
    then some (2, true, 4)
    else none

abbrev pub is_icmp : ℕ → Bool
is_icmp protocol = protocol == proto_icmpv4 || protocol == proto_icmpv6

abbrev pub same_family : Bool → Bool → Bool
same_family true b = b
same_family false b = not b

abbrev pub side_port : Side → ℕ → ℕ
side_port source l4 = l4
side_port destination l4 = l4 + 2

-- Where the port or the identifier is, if one is to be written.
unfoldable pub port_place : List ℕ → IpHeader → Side → Option ℕ → Checked (Option ℕ)
port_place pkt hdr side none = ok none
port_place pkt hdr side (some port) =
    let l4 = hdr.l4_offset in
    let identifier = do
      kind ← ok_or (get_elem? pkt l4) truncated
      refuse (not (is_echo hdr.protocol kind)) not_an_echo
      refuse (ltb hdr.total_len (l4 + 8)) truncated
      ok (some (l4 + 4))
    in if is_icmp hdr.protocol then identifier else ok (some (side_port side l4))

unfoldable pub addr_place : Bool → Side → ℕ
addr_place false source = 12
addr_place false destination = 16
addr_place true source = 8
addr_place true destination = 24

module _ (c : Checksum) where
  unfoldable pub checksum_update : ℕ → List ℕ → List ℕ → ℕ
  checksum_update ck (o ∷ o' ∷ old) (n ∷ n' ∷ new) =
      checksum_update (c.incremental_checksum_update ck (from_be o o') (from_be n n')) old new
  checksum_update ck old new = ck

  -- The address written at `at`, with the IPv4 header checksum at `base + 10`, and the transport
  -- checksum where it covers the addresses.
  unfoldable pub write_addr : List ℕ → ℕ → ℕ → IpAddr → Bool → ℕ → Checked (List ℕ × ℕ)
  unfolding checksum_update
  write_addr pkt base at (v4 new) covered ck = do
    old ← slice at 4 pkt
    pkt ← copy_at at new pkt
    header_ck ← index16 pkt (base + 10)
    pkt ← copy_at (base + 10) (to_be (checksum_update header_ck old new)) pkt
    ok (pkt, if covered then checksum_update ck old new else ck)
  write_addr pkt base at (v6 new) covered ck = do
    old ← slice at 16 pkt
    pkt ← copy_at at new pkt
    ok (pkt, if covered then checksum_update ck old new else ck)

  unfoldable pub write_port : List ℕ → Option ℕ → Option ℕ → Bool → ℕ → Checked (List ℕ × ℕ)
  unfolding checksum_update
  write_port pkt (some at) (some new) covered ck = do
    old ← slice at 2 pkt
    pkt ← copy_at at (to_be new) pkt
    ok (pkt, if covered then checksum_update ck old (to_be new) else ck)
  write_port pkt at port covered ck = ok (pkt, ck)

  -- The writes of `rewrite_endpoint`, after its checks.
  unfoldable pub write_endpoint :
      List ℕ → IpHeader → Side → IpAddr → Option ℕ → Option ℕ → ℕ → Bool → Checked (List ℕ)
  write_endpoint pkt hdr side addr port port_at ck_at pseudo = do
    ck ← index16 pkt (hdr.l4_offset + ck_at)
    let keep = hdr.protocol == proto_udp && (ck == 0 && not (is_v6 hdr))
    (pkt, ck) ← write_addr pkt 0 (addr_place (is_v6 hdr) side) addr (pseudo && not keep) ck
    (pkt, ck) ← write_port pkt port_at port (not keep) ck
    if keep then ok pkt else copy_at (hdr.l4_offset + ck_at) (to_be ck) pkt

  unfoldable pub rewrite_endpoint : List ℕ → IpHeader → Side → IpAddr → Option ℕ → Checked (List ℕ)
  rewrite_endpoint pkt hdr side addr port = do
    refuse (not (same_family (is_ipv6 addr) (is_v6 hdr))) family_mismatch
    refuse (ltb (length pkt) hdr.total_len) truncated
    (ck_at, pseudo, need) ← ok_or (l4_checksum hdr.protocol) unsupported_protocol
    refuse (ltb hdr.total_len (hdr.l4_offset + need)) truncated
    port_at ← port_place pkt hdr side port
    write_endpoint pkt hdr side addr port port_at ck_at pseudo
