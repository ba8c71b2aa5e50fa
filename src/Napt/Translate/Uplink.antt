-- ===== src/Napt/Translate/Uplink.antt =====
-- `uplink` of nat.rs: a packet from a peer onto the address that the exit assigned.
use warren_sdk_rs.Prelude.{ℕ, not, Option, none, some, ◌==◌, if◌then◌else◌}
use warren_sdk_rs.Prelude.Map.{nat_eq, bool_eq, triple_eq, lookup}
use warren_sdk_rs.Bytes.{Checksum}
use warren_sdk_rs.Ip.{
  socket_addr, IpAddr, IpHeader, Side, is_v6, is_echo, is_icmp_error, parse_ip, read_ports,
  read_icmp, proto_tcp, proto_udp,
}
use warren_sdk_rs.Ip.Rewrite.{rewrite_endpoint}
use warren_sdk_rs.Icmp.{parse_error_quote, quote_port, rewrite_error_quote}
use warren_sdk_rs.Napt.Types.{MapProto, proto_eq, addr_eq, NatDrop}
use warren_sdk_rs.Napt.Table.{Answer, mapping_for_uplink}
use warren_sdk_rs.Napt.Translate.{
  map_proto, external, external_port, read_flags, icmp_of_family, owned_by, count_uplink,
}
use warren_sdk_rs.Napt.Translate.Monad.{
  Step, ◌>>=◌, ◌>>◌, refuse, refuse_if, require, read, edit, call, get,
}
use warren_sdk_rs.Napt.Translate.Touch.{touch_uplink}

-- `c` are the engine's checksums, `gen_range` the generator's draw and `owner_of` the longest match
-- of the ownership table.
module _ {R T : Type 0} (c : Checksum) (gen_range : R → ℕ → ℕ × R)
    (owner_of : T → IpAddr → Option ℕ) where
  -- The mapping of the flow is found or made, records the packet and names it outside.
  unfoldable pub uplink_flow :
      ℕ → MapProto → IpHeader → ℕ → ℕ → ℕ → IpAddr → ℕ → Step R T (Unit {0})
  uplink_flow peer proto hdr port remote_port flags address now = do
    id ← call (λ n. mapping_for_uplink gen_range n peer proto (socket_addr hdr.src port) now)
    call (λ n. (Answer.ok tt, touch_uplink n id hdr.dst remote_port flags now))
    outside ← get (λ n. external_port n id)
    outside ← require outside NatDrop.no_mapping
    edit (λ pkt. rewrite_endpoint c pkt hdr Side.source address (some outside))

  -- An error that a peer sends about a packet that reached it through a mapping.
  unfoldable pub uplink_error : ℕ → IpHeader → IpAddr → Step R T (Unit {0})
  uplink_error peer hdr address = do
    quote ← read (λ pkt. parse_error_quote pkt hdr)
    proto ←
        require (map_proto quote.inner.protocol (is_v6 quote.inner)) NatDrop.unsupported_protocol
    port ← require (quote_port quote Side.destination) NatDrop.malformed
    id ← get (λ n. lookup (proto, quote.inner.dst, port) n.outbound)
    id ← require id NatDrop.no_mapping
    mapping ← get (λ n. lookup id n.mappings)
    mapping ← require mapping NatDrop.no_mapping
    refuse_if (not (mapping.owner == peer)) NatDrop.source_not_owned
    edit (λ pkt. rewrite_endpoint c pkt hdr Side.source address none)
    edit (λ pkt.
        rewrite_error_quote c pkt hdr quote Side.destination address (some mapping.external_port))

  unfoldable pub uplink_ports : ℕ → MapProto → IpHeader → IpAddr → ℕ → Step R T (Unit {0})
  uplink_ports peer proto hdr address now = do
    (sport, dport) ← read (λ pkt. read_ports pkt hdr.l4_offset)
    flags ← read_flags proto hdr.l4_offset
    uplink_flow peer proto hdr sport dport flags address now

  unfoldable pub uplink_echo : ℕ → IpHeader → IpAddr → ℕ → Option ℕ → Step R T (Unit {0})
  uplink_echo peer hdr address now id = do
    id ← require id NatDrop.malformed
    uplink_flow peer MapProto.icmp hdr id 0 0 address now

  unfoldable pub uplink_icmp : ℕ → IpHeader → IpAddr → ℕ → Step R T (Unit {0})
  uplink_icmp peer hdr address now = do
    icmp ← read (λ pkt. read_icmp pkt hdr.l4_offset)
    (if is_echo hdr.protocol icmp.kind
        then uplink_echo peer hdr address now icmp.echo_id
        else if is_icmp_error hdr.protocol icmp.kind
        then uplink_error peer hdr address
        else refuse NatDrop.unsupported_protocol)

  unfoldable pub uplink : ℕ → ℕ → Step R T (Unit {0})
  uplink peer now = do
    hdr ← read (λ pkt. parse_ip pkt)
    address ← get (λ n. external n (is_v6 hdr))
    address ← require address NatDrop.family_unavailable
    owner ← get (λ n. owner_of n.ownership hdr.src)
    refuse_if (not (owned_by owner peer)) NatDrop.source_not_owned
    (if hdr.protocol == proto_tcp
        then uplink_ports peer MapProto.tcp hdr address now
        else if hdr.protocol == proto_udp
        then uplink_ports peer MapProto.udp hdr address now
        else if icmp_of_family hdr
        then uplink_icmp peer hdr address now
        else refuse NatDrop.unsupported_protocol)

  -- The counters say what became of the packet.
  unfoldable pub translate_uplink : ℕ → ℕ → Step R T (Unit {0})
  translate_uplink peer now s =
      let (r, s') = uplink peer now s in (r, record s' { nat = count_uplink r s'.nat })
