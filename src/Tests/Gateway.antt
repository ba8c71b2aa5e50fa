-- ===== src/Tests/Gateway.antt =====
-- The responder over an engine that reads the kind of a datagram, the peer and the packet off its bytes.
use warren_sdk_rs.Prelude.{
  push, ◌≤◌, length, arith, ℕ, ◌+◌, ◌*◌, ◌≡◌, ◌⊎◌, refl, Bool, true, false, Option, none, some,
  List, [], ◌∷◌, ◌++◌, ◌==◌, any, get_elem?, if◌then◌else◌,
}
use warren_sdk_rs.Prelude.Map.{list_beq, nat_eq, list_eq, pair_eq, lookup}
use warren_sdk_rs.Prelude.Ordered.{update}
use warren_sdk_rs.Prelude.Outcomes.{Result}
use warren_sdk_rs.Bytes.{ok, bytes, get_range}
use warren_sdk_rs.Ip.{IpAddr, SocketAddr}
use warren_sdk_rs.Ip as Ip
use warren_sdk_rs.Plan.Peers.{overlaps_tunnel_pool, contains, is_gateway, is_tunnel_pool}
use warren_sdk_rs.Plan.{Addr, v4, in_net, Networks, IpNetwork, net4}
use warren_sdk_rs.Bytes.Laws.{Returns}
use warren_sdk_rs.Conf.{PeerConf, ConfError, check_peers, check_against, net_contains}
use warren_sdk_rs.Index.{from_seed}
use warren_sdk_rs.Index as Index
use warren_sdk_rs.RateLimit.TokenBucket as TokenBucket
use warren_sdk_rs.RateLimit.HandshakeBuckets as HandshakeBuckets
use warren_sdk_rs.Responder.Counters.{zeros}
use warren_sdk_rs.Responder.Types.{
  ReloadReport, GatewayConf, WireGuardError, TunnResult, Packet, Engine, Crates, available, uplink,
  reply, Peer, Responder,
}
use warren_sdk_rs.Responder.Setup.{no_stats}
use warren_sdk_rs.Responder.Datagram.{handle_datagram}
use warren_sdk_rs.Responder.Verdict.{owns, verdict}
use warren_sdk_rs.Responder.Downlink.{flush}
use warren_sdk_rs.Responder.Views.{endpoint}
use warren_sdk_rs.Responder.Cleared.{Cleared, handle_datagram-Cleared}
use warren_sdk_rs.Responder.Roaming.{Genuine, handle_datagram-Moves}
use warren_sdk_rs.Responder.Returns.{handle_datagram-Returns}
use warren_sdk_rs.Responder.Reload.{reload}
use warren_sdk_rs.Responder.Reload.Revoked.{Reloaded, reload-Reloaded}
use warren_sdk_rs.Responder.Steps.{receives, flushes, Run, start, next, All, IsCookie}
use warren_sdk_rs.Responder.Steps.Silent.{Run-silent}

-- A network is its base and its prefix.
abbrev subnets : ℕ → Networks (ℕ × ℕ)
unfolding in_net
subnets w = record {
  new = λ base prefix. some (base, prefix);
  network_address = λ net. net.0;
  netmask = λ net. net.1;
  contains = λ net a. in_net w a net;
}

abbrev N : Type 0
N = IpNetwork (ℕ × ℕ) (ℕ × ℕ)

unfoldable first_match : List (N × ℕ) → Addr → Option (N × ℕ)
unfolding net_contains
first_match [] addr = none
first_match ((network, owner) ∷ table) addr =
    let rest = first_match table addr in
    if net_contains (subnets 32) (subnets 128) network addr then some (network, owner) else rest

abbrev number : Option (List ℕ) → Option Addr
number (some (a ∷ b ∷ c ∷ d ∷ [])) = some (v4 (((a * 256 + b) * 256 + c) * 256 + d))
number _ = none

-- The datagrams: 1 and a key, 4 and a peer with a packet, 9 for one that is asked for a cookie.
abbrev verified : List ℕ → Result Packet TunnResult
verified (kind ∷ name ∷ packet) =
    if kind == 1
    then Result.ok (Packet.handshake_init (name ∷ []))
    else if kind == 4
    then Result.ok (Packet.packet_data (name * 256))
    else if kind == 9
    then Result.err (TunnResult.write_to_network (3 ∷ []))
    else Result.err (TunnResult.err WireGuardError.other_error)
verified _ = Result.err (TunnResult.err WireGuardError.other_error)

abbrev opened : List ℕ → TunnResult
opened (kind ∷ name ∷ packet) =
    if kind == 4
    then TunnResult.write_to_tunnel_v4 packet 0x0a430002
    else TunnResult.write_to_network (2 ∷ [])
opened _ = TunnResult.done

abbrev engine : Engine ℕ ℕ
engine = record {
  rate_limiter = λ w public rate. w;
  verify_packet = λ w ip datagram. (verified datagram, w + 1);
  reset_count = λ w. 0;
  parse_handshake_anon = λ secret public init. some init;
  tunn = λ w secret public psk keepalive index. (index, w);
  decapsulate = λ w session src datagram. (opened datagram, session, w);
  encapsulate = λ w session packet. (TunnResult.write_to_network (4 ∷ packet), session, w);
  update_timers = λ w session. (TunnResult.done, session, w);
  dst_address = λ packet. number (get_range packet 16 20);
  stats = λ session. (none, 0, 0);
}

abbrev crates : Crates ℕ ℕ (ℕ × ℕ) (ℕ × ℕ) (List (N × ℕ))
crates = record {
  engine = engine;
  ip4 = subnets 32;
  ip6 = subnets 128;
  routing = record {
    empty = [];
    insert = λ table network owner. (network, owner) ∷ table;
    longest_match = first_match;
  };
  checksum = record {
    incremental_checksum_update = λ check old new. check;
    internet_checksum = λ seed bytes. seed;
    icmpv6_pseudo_sum = λ src dst len. len;
  };
}

-- Peer 5 owns 10.67.0.2, in the peers' subnet 10.67.0.0/24.
abbrev device : Peer ℕ (ℕ × ℕ) (ℕ × ℕ)
device = record {
  label = 7 ∷ [];
  public = 8 ∷ [];
  psk = none;
  allowed = net4 (0x0a430002, 32) ∷ [];
  tunn = 5;
  endpoint = none;
  stats = no_stats;
  last_drop = none;
}

abbrev gateway : Bool → Responder ℕ ℕ (ℕ × ℕ) (ℕ × ℕ) (List (N × ℕ))
gateway unlocked = record {
  key = record { secret = []; public = [] };
  limiter = 0;
  peers = (5, device) ∷ [];
  by_pubkey = (8 ∷ [], 5) ∷ [];
  by_label = (7 ∷ [], 5) ∷ [];
  routes = (net4 (0x0a430002, 32), 5) ∷ [];
  per_source = HandshakeBuckets.new;
  answers = TokenBucket.new 10 10;
  indexes = from_seed 1 0;
  plan = record {
    subnet_v4 = (0x0a430000, 24);
    subnet_v6 = (0xfd776172726500000000000000000000, 64);
  };
  isolation = true;
  gate = record { is_open = unlocked; generation = 1 };
  v6 = available;
  counters = zeros;
  last_reset = none;
  last_wall = none;
}

-- A packet of the peer to 1.1.1.1, the datagram that carries it, and where it comes from.
abbrev packet : List ℕ
packet = 69 ∷ 0 ∷ 0 ∷ 20 ∷ 0 ∷ 0 ∷ 0 ∷ 0 ∷ 64 ∷ 17 ∷ 0 ∷ 0 ∷ 10 ∷ 67 ∷ 0 ∷ 2 ∷ 1 ∷ 1 ∷ 1 ∷ 1 ∷ []

abbrev datagram : List ℕ
datagram = 4 ∷ 5 ∷ packet

abbrev source : SocketAddr
source = Ip.socket_addr (Ip.v4 (203 ∷ 0 ∷ 113 ∷ 9 ∷ [])) 51820

packet_uplinked : (handle_datagram crates source datagram 0 (gateway true)).0 ≡ ok (uplink 5 packet)
unfolding handle_datagram lookup update owns any net_contains subnets verdict get_range bytes
    get_elem? is_gateway first_match contains is_tunnel_pool
packet_uplinked = refl

handle_datagram-Cleared_example :
    Cleared crates 1
      (gateway true)
      source
      datagram
      (handle_datagram crates source datagram 0 (gateway true)).0
handle_datagram-Cleared_example = handle_datagram-Cleared crates source datagram 0 (gateway true)

handle_datagram-Moves_example :
    (endpoint crates 5 (handle_datagram crates source datagram 0 (gateway true)).1
      ≡ endpoint crates 5 (gateway true))
    ⊎ ((endpoint crates 5 (handle_datagram crates source datagram 0 (gateway true)).1 ≡ some source)
        × Genuine crates 1 (gateway true) source datagram 5 (verified datagram))
handle_datagram-Moves_example = handle_datagram-Moves crates source datagram 0 (gateway true) 5

-- A call of the closed gateway that is asked for a cookie, then a packet that it refuses.
abbrev request : List ℕ
request = 9 ∷ 0 ∷ []

abbrev asked : Responder ℕ ℕ (ℕ × ℕ) (ℕ × ℕ) (List (N × ℕ))
asked = (handle_datagram crates source request 0 (gateway false)).1

run_example : Run crates (gateway false) (([] ++ ((3 ∷ []) ∷ [])) ++ []) (flush crates 5 asked).1
unfolding handle_datagram flush
run_example =
    next _ _ _ _ (next _ _ _ _ start (receives source request 0 (reply (3 ∷ [])) asked refl))
      (flushes 5)

Run-silent_example :
    All (IsCookie crates) (([] ++ ((3 ∷ []) ∷ [])) ++ [])
    × ((flush crates 5 asked).1.gate.is_open ≡ false)
Run-silent_example = Run-silent crates run_example refl

-- The engine reads four bytes of a packet for its destination.
engine_named :
    (bytes : List ℕ) (dst : Addr) → number (get_range bytes 16 20) ≡ some dst → 1 ≤ length bytes
unfolding get_range
engine_named [] dst e = absurd (ground (arith, e))
engine_named (x ∷ xs) dst e = omega arith

handle_datagram-Returns_example :
    Returns (handle_datagram crates source datagram 0 (gateway true)).0
handle_datagram-Returns_example =
    handle_datagram-Returns crates engine_named source datagram 0 (gateway true)

-- A configuration that keeps the device under its label, with another network.
abbrev moved_device : PeerConf (ℕ × ℕ) (ℕ × ℕ)
moved_device = record {
  label = 7 ∷ [];
  public = 8 ∷ [];
  psk = none;
  allowed = net4 (0x0a430003, 32) ∷ [];
}

abbrev moved : GatewayConf (ℕ × ℕ) (ℕ × ℕ)
moved = record { key = record { secret = []; public = [] }; peers = moved_device ∷ [] }

reload-Reloaded_example : Reloaded crates moved (gateway true) (reload crates moved (gateway true))
reload-Reloaded_example = reload-Reloaded crates moved (gateway true)

abbrev report_of : {S : Type 0} → Option (Result ReloadReport ConfError × S) → List (List ℕ)
report_of (some (Result.ok report, s)) = report.rebuilt
report_of _ = []

reload_rebuilds : report_of (reload crates moved (gateway true)) ≡ (7 ∷ []) ∷ []
unfolding reload check_peers overlaps_tunnel_pool check_against lookup list_beq any push
reload_rebuilds = refl

-- A configuration that keeps the device as it is, before a peer that is new.
abbrev newcomer : PeerConf (ℕ × ℕ) (ℕ × ℕ)
newcomer = record {
  label = 9 ∷ [];
  public = 9 ∷ [];
  psk = none;
  allowed = net4 (0x0a430003, 32) ∷ [];
}

abbrev same_device : PeerConf (ℕ × ℕ) (ℕ × ℕ)
same_device = record {
  label = 7 ∷ [];
  public = 8 ∷ [];
  psk = none;
  allowed = net4 (0x0a430002, 32) ∷ [];
}

abbrev joined : GatewayConf (ℕ × ℕ) (ℕ × ℕ)
joined = record { key = record { secret = []; public = [] }; peers = newcomer ∷ same_device ∷ [] }
