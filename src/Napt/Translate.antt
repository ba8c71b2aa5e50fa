-- ===== src/Napt/Translate.antt =====
-- The packet path of nat.rs. A call takes the packet and the translator, and leaves both, also where
-- it refuses the packet. The types of the mapping table, the generator and the checksums are
-- parameters.
pub mod Monad
pub mod Counters
pub mod Counted
pub mod Keeps
pub mod Path
pub mod Touch
pub mod Uplink
pub mod Downlink
use warren_sdk_rs.Prelude.{
  ℕ, ◌+◌, Bool, true, false, not, ◌&&◌, ◌||◌, Option, none, some, List, ◌==◌, if◌then◌else◌,
}
use warren_sdk_rs.Prelude.Map.{◌=?◌, nat_eq, triple_eq, lookup}
use warren_sdk_rs.Bytes.{Checksum}
use warren_sdk_rs.Ip.{
  IpAddr, v4, v6, IpHeader, Side, source, is_v6, is_echo, is_icmp_error, parse_ip, read_ports,
  read_icmp, tcp_flags, proto_tcp, proto_udp, proto_icmpv4, proto_icmpv6,
}
use warren_sdk_rs.Ip.Rewrite.{rewrite_endpoint}
use warren_sdk_rs.Icmp.{parse_error_quote, quote_port, rewrite_error_quote}
use warren_sdk_rs.Icmp
use warren_sdk_rs.Napt.Types.{
  MapProto, proto_eq, addr_eq, SocketAddr, NatDrop, Mapping, Napt, Snapshot,
}
use warren_sdk_rs.Napt.Table.{outbound_key, mapping_for_uplink}
use Monad.{
  Run, done, refused, panics, Machine, Step, ◌>>=◌, ◌>>◌, pure, refuse, refuse_if, require, read,
  edit, call, get,
}
use Touch.{touch_uplink}

unfoldable pub map_proto : ℕ → Bool → Option MapProto
map_proto protocol family =
    if protocol == proto_tcp
    then some MapProto.tcp
    else if protocol == proto_udp
    then some MapProto.udp
    else if (not family && (protocol == proto_icmpv4)) || (family && (protocol == proto_icmpv6))
    then some MapProto.icmp
    else none

-- `self.ownership.owner_of(hdr.src) != Some(peer)`, negated.
abbrev pub owned_by : Option ℕ → ℕ → Bool
owned_by none peer = false
owned_by (some owner) peer = owner == peer

abbrev pub icmp_of_family : IpHeader → Bool
icmp_of_family hdr =
    (not (is_v6 hdr) && (hdr.protocol == proto_icmpv4))
    || (is_v6 hdr && (hdr.protocol == proto_icmpv6))

-- `by_class` of stats.rs.
unfoldable pub by_class : NatDrop → Snapshot → Snapshot
by_class NatDrop.source_not_owned t = record t { source_not_owned = t.source_not_owned + 1 }
by_class NatDrop.no_mapping t = record t { no_mapping = t.no_mapping + 1 }
by_class NatDrop.port_exhausted t = record t { port_exhausted = t.port_exhausted + 1 }
by_class NatDrop.peer_cap t = record t { peer_cap = t.peer_cap + 1 }
by_class NatDrop.fragment t = record t { fragment = t.fragment + 1 }
by_class NatDrop.extension_header t = record t { v6_extension_header = t.v6_extension_header + 1 }
by_class NatDrop.unsupported_protocol t = record t {
  unsupported_protocol = t.unsupported_protocol + 1;
}
by_class NatDrop.malformed t = record t { malformed = t.malformed + 1 }
by_class NatDrop.family_unavailable t = record t { family_unavailable = t.family_unavailable + 1 }

-- The counters after a packet from a peer, and after one from the tunnel.
unfoldable pub tally_uplink : {A : Type 0} → Run A → Snapshot → Snapshot
unfolding by_class
tally_uplink (done _) t = record t { uplink_translated = t.uplink_translated + 1 }
tally_uplink (refused d) t = by_class d (record t { uplink_dropped = t.uplink_dropped + 1 })
tally_uplink panics t = t

unfoldable pub tally_downlink : {A : Type 0} → Run A → Snapshot → Snapshot
unfolding by_class
tally_downlink (done _) t = record t { downlink_translated = t.downlink_translated + 1 }
tally_downlink (refused d) t = by_class d (record t { downlink_dropped = t.downlink_dropped + 1 })
tally_downlink panics t = t

module _ {R T : Type 0} where
  abbrev pub count_uplink : {A : Type 0} → Run A → Napt R T → Napt R T
  count_uplink r n = record n { counters = tally_uplink r n.counters }

  abbrev pub count_downlink : {A : Type 0} → Run A → Napt R T → Napt R T
  count_downlink r n = record n { counters = tally_downlink r n.counters }

  unfoldable pub external : Napt R T → Bool → Option IpAddr
  external n true = elim n.v6 [ none ↦ none | some octets ↦ some (IpAddr.v6 octets) ]
  external n false = elim n.v4 [ none ↦ none | some octets ↦ some (IpAddr.v4 octets) ]

  unfoldable pub external_port : Napt R T → ℕ → Option ℕ
  external_port n id = elim (lookup id n.mappings) [ none ↦ none | some m ↦ some m.external_port ]

  -- The TCP flags, and zero for UDP.
  abbrev pub read_flags : MapProto → ℕ → Step R T ℕ
  read_flags MapProto.tcp l4 = read (λ pkt. tcp_flags pkt l4)
  read_flags _ l4 = pure 0
