-- ===== src/Napt/Translate/Downlink.antt =====
-- `downlink` of nat.rs: a packet from the tunnel back to the peer that owns its mapping.
use warren_sdk_rs.Prelude.{ℕ, not, Option, none, some, ◌==◌, if◌then◌else◌}
use warren_sdk_rs.Prelude.Map.{◌=?◌, nat_eq, bool_eq, triple_eq, lookup}
use warren_sdk_rs.Bytes.{Checksum}
use warren_sdk_rs.Ip.{
  IpAddr, IpHeader, Side, is_v6, is_echo, is_icmp_error, parse_ip, read_ports, read_icmp, proto_tcp,
  proto_udp,
}
use warren_sdk_rs.Ip.Rewrite.{rewrite_endpoint}
use warren_sdk_rs.Icmp.{parse_error_quote, quote_port, rewrite_error_quote}
use warren_sdk_rs.Napt.Types.{MapProto, proto_eq, addr_eq, SocketAddr, NatDrop, Translated}
use warren_sdk_rs.Napt.Table.{inbound_key}
use warren_sdk_rs.Napt.Translate.{map_proto, external, read_flags, icmp_of_family, count_downlink}
use warren_sdk_rs.Napt.Translate.Monad.{
  Step, ◌>>=◌, ◌>>◌, pure, refuse, refuse_if, require, read, edit, call, get,
}
use warren_sdk_rs.Napt.Translate.Touch.{accept_downlink}

module _ {R T : Type 0} (c : Checksum) where
  -- `Translated`, for the mapping and its endpoint.
  abbrev pub translated : ℕ → SocketAddr → Step R T Translated
  translated id internal = do
    mapping ← get (λ n. lookup id n.mappings)
    mapping ← require mapping NatDrop.no_mapping
    pure (record { peer = mapping.owner; destination = internal.ip })

  unfoldable pub downlink_flow : MapProto → IpHeader → ℕ → ℕ → ℕ → ℕ → Step R T Translated
  downlink_flow proto hdr port remote_port flags now = do
    id ← get (λ n. lookup (inbound_key proto (is_v6 hdr) port) n.inbound)
    id ← require id NatDrop.no_mapping
    internal ← call (λ n. accept_downlink n id hdr.src remote_port flags now)
    edit (λ pkt. rewrite_endpoint c pkt hdr Side.destination internal.ip (some internal.port))
    translated id internal

  -- An error about a packet that the gateway sent; any router may send one.
  unfoldable pub downlink_error : IpHeader → IpAddr → Step R T Translated
  downlink_error hdr address = do
    quote ← read (λ pkt. parse_error_quote pkt hdr)
    refuse_if (not (quote.inner.src =? address)) NatDrop.no_mapping
    proto ←
        require (map_proto quote.inner.protocol (is_v6 quote.inner)) NatDrop.unsupported_protocol
    port ← require (quote_port quote Side.source) NatDrop.malformed
    id ← get (λ n. lookup (inbound_key proto (is_v6 hdr) port) n.inbound)
    id ← require id NatDrop.no_mapping
    mapping ← get (λ n. lookup id n.mappings)
    mapping ← require mapping NatDrop.no_mapping
    let internal = mapping.internal
    edit (λ pkt. rewrite_endpoint c pkt hdr Side.destination internal.ip none)
    edit (λ pkt. rewrite_error_quote c pkt hdr quote Side.source internal.ip (some internal.port))
    translated id internal

  unfoldable pub downlink_ports : MapProto → IpHeader → ℕ → Step R T Translated
  downlink_ports proto hdr now = do
    (sport, dport) ← read (λ pkt. read_ports pkt hdr.l4_offset)
    flags ← read_flags proto hdr.l4_offset
    downlink_flow proto hdr dport sport flags now

  unfoldable pub downlink_echo : IpHeader → ℕ → Option ℕ → Step R T Translated
  downlink_echo hdr now id = do
    id ← require id NatDrop.malformed
    downlink_flow MapProto.icmp hdr id 0 0 now

  unfoldable pub downlink_icmp : IpHeader → IpAddr → ℕ → Step R T Translated
  downlink_icmp hdr address now = do
    icmp ← read (λ pkt. read_icmp pkt hdr.l4_offset)
    (if is_echo hdr.protocol icmp.kind
        then downlink_echo hdr now icmp.echo_id
        else if is_icmp_error hdr.protocol icmp.kind
        then downlink_error hdr address
        else refuse NatDrop.unsupported_protocol)

  unfoldable pub downlink : ℕ → Step R T Translated
  downlink now = do
    hdr ← read (λ pkt. parse_ip pkt)
    address ← get (λ n. external n (is_v6 hdr))
    address ← require address NatDrop.family_unavailable
    refuse_if (not (hdr.dst =? address)) NatDrop.no_mapping
    (if hdr.protocol == proto_tcp
        then downlink_ports MapProto.tcp hdr now
        else if hdr.protocol == proto_udp
        then downlink_ports MapProto.udp hdr now
        else if icmp_of_family hdr
        then downlink_icmp hdr address now
        else refuse NatDrop.unsupported_protocol)

  unfoldable pub translate_downlink : ℕ → Step R T Translated
  translate_downlink now s =
      let (r, s') = downlink now s in (r, record s' { nat = count_downlink r s'.nat })
