-- ===== src/Responder/Types.antt =====
-- The state of crates/warren-bolthole-core/src/responder.rs, with the types of peer.rs that it uses. A
-- peer is the number of its index; a label, a key and a datagram are lists of bytes.
use warren_sdk_rs.Prelude.{ℕ, Bool, Option, List}
use warren_sdk_rs.Prelude.Outcomes.{Result}
use warren_sdk_rs.Bytes.{Checksum}
use warren_sdk_rs.Ip.{IpAddr, SocketAddr}
use warren_sdk_rs.Plan.{Addr, Networks, IpNetwork}
use warren_sdk_rs.Plan.Peers.{PeerPlan}
use warren_sdk_rs.Conf.{PeerConf}
use warren_sdk_rs.Index.{IndexGen}
use warren_sdk_rs.RateLimit.TokenBucket.{TokenBucket}
use warren_sdk_rs.RateLimit.HandshakeBuckets.{HandshakeBuckets}
use warren_sdk_rs.Responder.Counters.{DropReason, ResponderSnapshot}

-- What the responder uses of boringtun, the protocol engine. `W` is what its sessions share, the
-- cookie limiter with its counts and the engine's clock and randomness among it, and `T` the state of
-- one session. What an operation writes into the scratch buffer stands at its start, and is returned.
pub data WireGuardError : Type 0 where
  wrong_tai64n_timestamp connection_expired other_error : WireGuardError

pub data TunnResult : Type 0 where
  done : TunnResult
  err : WireGuardError → TunnResult
  write_to_network : List ℕ → TunnResult
  write_to_tunnel_v4 write_to_tunnel_v6 : List ℕ → ℕ → TunnResult

-- A parsed datagram: an initiation with its bytes, or the index of the receiver.
pub data Packet : Type 0 where
  handshake_init : List ℕ → Packet
  handshake_response packet_cookie_reply packet_data : ℕ → Packet

pub record Engine (W T : Type 0) : Type 0 where
  pub rate_limiter : W → List ℕ → ℕ → W
  pub verify_packet : W → IpAddr → List ℕ → Result Packet TunnResult × W
  pub reset_count : W → W
  pub parse_handshake_anon : List ℕ → List ℕ → List ℕ → Option (List ℕ)
  pub tunn : W → List ℕ → List ℕ → Option (List ℕ) → Option ℕ → ℕ → T × W
  pub decapsulate : W → T → Option IpAddr → List ℕ → TunnResult × T × W
  pub encapsulate : W → T → List ℕ → TunnResult × T × W
  pub update_timers : W → T → TunnResult × T × W
  pub dst_address : List ℕ → Option Addr
  pub stats : T → Option ℕ × ℕ × ℕ

-- What it uses of the crate ip_network_table, over the networks `N`.
pub record Routing (R N : Type 0) : Type 0 where
  pub empty : R
  pub insert : R → N → ℕ → R
  pub longest_match : R → Addr → Option (N × ℕ)

pub record Crates (W T N4 N6 R : Type 0) : Type 0 where
  pub engine : Engine W T
  pub ip4 : Networks N4
  pub ip6 : Networks N6
  pub routing : Routing R (IpNetwork N4 N6)
  pub checksum : Checksum

pub record GatewayKey : Type 0 where
  pub secret : List ℕ
  pub public : List ℕ

pub record GatewayConf (N4 N6 : Type 0) : Type 0 where
  pub key : GatewayKey
  pub peers : List (PeerConf N4 N6)

pub record Gate : Type 0 where
  pub is_open : Bool
  pub generation : ℕ

pub data V6State : Type 0 where
  available no_assignment budget_too_small : V6State

pub data Inbound : Type 0 where
  uplink : ℕ → List ℕ → Inbound
  reply : List ℕ → Inbound
  loopback : ℕ → List ℕ → Inbound
  consumed : Inbound
  dropped : DropReason → Inbound

pub data Encapsulated : Type 0 where
  sent : SocketAddr → List ℕ → Encapsulated
  deferred : Option (SocketAddr × List ℕ) → Encapsulated

pub data RouteError : Type 0 where
  no_route unknown_peer gate_closed encapsulation : RouteError

pub data UnknownPeer : Type 0 where
  unknown : UnknownPeer

pub record ReloadReport : Type 0 where
  pub added : List (List ℕ)
  pub removed : List (List ℕ)
  pub rebuilt : List (List ℕ)
  pub unchanged : ℕ

pub record ResponderOptions : Type 0 where
  pub peer_isolation : Bool
  pub handshake_rate : ℕ
  pub per_source_rate : ℕ
  pub per_source_burst : ℕ
  pub sources_tracked : ℕ
  pub answer_rate : ℕ
  pub answer_burst : ℕ

pub record PeerStats : Type 0 where
  pub rx_bytes : ℕ
  pub tx_bytes : ℕ
  pub handshakes : ℕ
  pub deferred : ℕ
  pub drops : ℕ

pub record Peer (T N4 N6 : Type 0) : Type 0 where
  pub label : List ℕ
  pub public : List ℕ
  pub psk : Option (List ℕ)
  pub allowed : List (IpNetwork N4 N6)
  pub tunn : T
  pub endpoint : Option SocketAddr
  pub stats : PeerStats
  pub last_drop : Option DropReason

-- A duration of the engine is a number of nanoseconds.
pub record PeerStatus (N4 N6 : Type 0) : Type 0 where
  pub label : List ℕ
  pub has_session : Bool
  pub last_handshake_secs : Option ℕ
  pub endpoint_seen : Bool
  pub stats : PeerStats
  pub allowed_ips : List (IpNetwork N4 N6)
  pub last_drop : Option DropReason

pub record Responder (W T N4 N6 R : Type 0) : Type 0 where
  pub key : GatewayKey
  pub limiter : W
  pub peers : List (ℕ × Peer T N4 N6)
  pub by_pubkey : List (List ℕ × ℕ)
  pub by_label : List (List ℕ × ℕ)
  pub routes : R
  pub per_source : HandshakeBuckets IpAddr
  pub answers : TokenBucket
  pub indexes : IndexGen
  pub plan : PeerPlan N4 N6
  pub isolation : Bool
  pub gate : Gate
  pub v6 : V6State
  pub counters : ResponderSnapshot
  pub last_reset : Option ℕ
  pub last_wall : Option ℕ

-- What the engine answered, as `summarize` sorts it.
pub data Outcome : Type 0 where
  network : List ℕ → ℕ → Outcome
  tunnel : List ℕ → Addr → Outcome
  done : Outcome
  failed : DropReason → Outcome

pub data Answer : Type 0 where
  echo unreachable : Answer
  no_route_v6 : DropReason → Answer

pub data Verdict : Type 0 where
  forward : Verdict
  loopback : ℕ → Verdict
  answer : Answer → Verdict
  drop : DropReason → Verdict
