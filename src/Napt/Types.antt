-- ===== src/Napt/Types.antt =====
-- The state of nat.rs. A peer, a mapping's identifier, a port and a time in nanoseconds are numbers.
-- `R` is the state of the random generator and `T` the table of the crate ip_network_table; a hash
-- map is an association list, and the expiry heap the list of its entries, the earliest first.
use warren_sdk_rs.Prelude.{ℕ, ◌*◌, ◌≡◌, ◌↔◌, arith, Bool, true, false, Option, List}
use warren_sdk_rs.Prelude.Map.{Eq, list_beq, list_beq_iff}
use warren_sdk_rs.Bytes.{PacketError}
use warren_sdk_rs.Ip.{IpAddr, v4, v6}
use warren_sdk_rs.Ports.{PortAllocator}
pub use warren_sdk_rs.Ip.{SocketAddr}

pub data MapProto : Type 0 where
  tcp udp icmp : MapProto

unfoldable pub proto_beq : MapProto → MapProto → Bool
proto_beq tcp tcp = true
proto_beq udp udp = true
proto_beq icmp icmp = true
proto_beq _ _ = false

pub proto_beq_iff : (a b : MapProto) → (proto_beq a b ≡ true) ↔ (a ≡ b)
unfolding proto_beq
proto_beq_iff a b = ground arith

instance abbrev pub proto_eq : Eq MapProto
proto_eq = record { beq = proto_beq; beq_iff = proto_beq_iff }

unfoldable pub addr_beq : IpAddr → IpAddr → Bool
addr_beq (v4 a) (v4 b) = list_beq a b
addr_beq (v6 a) (v6 b) = list_beq a b
addr_beq _ _ = false

pub addr_beq_iff : (a b : IpAddr) → (addr_beq a b ≡ true) ↔ (a ≡ b)
unfolding addr_beq
addr_beq_iff (v4 a) (v4 b) = ground (arith, list_beq_iff a b)
addr_beq_iff (v6 a) (v6 b) = ground (arith, list_beq_iff a b)
addr_beq_iff (v4 a) (v6 b) = ground arith
addr_beq_iff (v6 a) (v4 b) = ground arith

instance abbrev pub addr_eq : Eq IpAddr
addr_eq = record { beq = addr_beq; beq_iff = addr_beq_iff }

-- The sixteen bytes of `ExitId` stand as a list.
pub record EpochId : Type 0 where
  pub exit : List ℕ
  pub generation : ℕ

pub record Translated : Type 0 where
  pub peer : ℕ
  pub destination : IpAddr

pub record StaticDnat : Type 0 where
  pub proto : MapProto
  pub external_port : ℕ
  pub target : SocketAddr

pub data NatDrop : Type 0 where
  source_not_owned no_mapping port_exhausted peer_cap fragment extension_header : NatDrop
  unsupported_protocol malformed family_unavailable : NatDrop

abbrev pub drop_of : PacketError → NatDrop
drop_of PacketError.fragment = NatDrop.fragment
drop_of PacketError.extension_header = NatDrop.extension_header
drop_of PacketError.unsupported_protocol = NatDrop.unsupported_protocol
drop_of _ = malformed

pub record NatConfig : Type 0 where
  pub pool_start : ℕ
  pub pool_end : ℕ
  pub per_peer_mappings : ℕ
  pub per_peer_identifiers : ℕ
  pub remotes_per_mapping : ℕ
  pub udp_initial : ℕ
  pub udp_established : ℕ
  pub tcp_syn : ℕ
  pub tcp_established : ℕ
  pub tcp_closing : ℕ
  pub icmp : ℕ

-- A second, in nanoseconds.
abbrev pub second : ℕ
second = 1_000_000_000

unfoldable pub default_config : NatConfig
default_config = record {
  pool_start = 32768;
  pool_end = 60999;
  per_peer_mappings = 4096;
  per_peer_identifiers = 1024;
  remotes_per_mapping = 64;
  udp_initial = 30 * second;
  udp_established = 120 * second;
  tcp_syn = 60 * second;
  tcp_established = 7440 * second;
  tcp_closing = 60 * second;
  icmp = 60 * second;
}

pub data FlowState : Type 0 where
  udp_one_way udp_answered tcp_syn tcp_established tcp_closed icmp : FlowState

pub record RemoteFlow : Type 0 where
  pub addr : IpAddr
  pub port : ℕ
  pub state : FlowState
  pub fin_up : Bool
  pub fin_down : Bool
  pub last_seen : ℕ

pub record Mapping : Type 0 where
  pub owner : ℕ
  pub proto : MapProto
  pub internal : SocketAddr
  pub external_port : ℕ
  pub remotes : List RemoteFlow
  pub last_seen : ℕ
  pub pinned : Bool
  pub older : Option ℕ
  pub newer : Option ℕ

-- The counters of stats.rs that the translator bumps.
pub record Snapshot : Type 0 where
  pub uplink_translated : ℕ
  pub downlink_translated : ℕ
  pub uplink_dropped : ℕ
  pub downlink_dropped : ℕ
  pub source_not_owned : ℕ
  pub no_mapping : ℕ
  pub port_exhausted : ℕ
  pub peer_cap : ℕ
  pub fragment : ℕ
  pub v6_extension_header : ℕ
  pub unsupported_protocol : ℕ
  pub malformed : ℕ
  pub family_unavailable : ℕ

pub record Napt (R T : Type 0) : Type 0 where
  pub config : NatConfig
  pub ownership : T
  pub exit : Option (List ℕ)
  pub epoch : Option EpochId
  pub v4 : Option (List ℕ)
  pub v6 : Option (List ℕ)
  pub mappings : List (ℕ × Mapping)
  pub recency : List ((ℕ × MapProto) × (ℕ × ℕ))
  pub outbound : List ((MapProto × IpAddr × ℕ) × ℕ)
  pub inbound : List ((MapProto × Bool × ℕ) × ℕ)
  pub peer_counts : List ((ℕ × MapProto) × ℕ)
  pub ports : Bool → MapProto → PortAllocator
  pub expiry : List (ℕ × ℕ)
  pub next_id : ℕ
  pub counters : Snapshot
  pub rng : R
