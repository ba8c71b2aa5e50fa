-- ===== src/Tests/Translator.antt =====
-- The translator of nat.rs with one flow of the peer 7, from 10.0.0.2:5000 to 1.2.3.4:53.
use warren_sdk_rs.Prelude.{
  ℕ, ◌+◌, ◌<◌, ◌≡◌, refl, Bool, Option, true, false, none, some, List, [], ◌∷◌, arith,
}
use warren_sdk_rs.Prelude.Map.{nat_eq, remove, lookup}
use warren_sdk_rs.Ip.{IpAddr, socket_addr}
use warren_sdk_rs.Napt.Types.{
  MapProto, SocketAddr, EpochId, FlowState, RemoteFlow, Mapping, NatConfig, Napt, NatDrop,
  default_config, proto_eq, addr_eq,
}
use warren_sdk_rs.Bytes.{Checksum}
use warren_sdk_rs.Napt.Translate.{tally_uplink, tally_downlink}
use warren_sdk_rs.Napt.Translate.Monad.{Machine}
use warren_sdk_rs.Napt.Translate.Uplink.{translate_uplink}
use warren_sdk_rs.Napt.Translate.Downlink.{translate_downlink}
use warren_sdk_rs.Napt.Translate.Path.{translate_uplink-counts, translate_downlink-counts}
use warren_sdk_rs.Tests.Packets.{datagram}
use warren_sdk_rs.Napt.Table.{
  remove_mapping, with_rng, empty_counters, flush_peer, set_external, mapping_for_uplink,
}
use warren_sdk_rs.Napt.Flow.{deadline_of}
use warren_sdk_rs.Napt.Recency.{unlink}
use warren_sdk_rs.Napt.Sweep.{sweep_entry, sweep_rounds}
use warren_sdk_rs.Napt.Sweep.Expiry.{expired_of, idle, all_silent, patience, opening, expired}
use warren_sdk_rs.Napt.Sweep.Forgets.{Forgets}
use warren_sdk_rs.Napt.Sweep.Termination.{due, Swept, sweep_rounds-Swept}
use warren_sdk_rs.Napt.Maps.{IsMap}
use warren_sdk_rs.Napt.Identity.{Identity, identity_at}
use warren_sdk_rs.Napt.Flush.{kept, of_peer, of_epoch, flush_peer-kept, set_external-kept}
use warren_sdk_rs.Napt.Ownership.{Owned, mapping_for_uplink-Owned}
use warren_sdk_rs.Napt.Filtering.{Filters, accept_downlink-Filters}
use warren_sdk_rs.Napt.Translate.Touch.{accept_downlink}
use warren_sdk_rs.Napt.Translate.Monad.{done, refused}
use warren_sdk_rs.Napt.Translate.Counters.{
  Event, up, down, tally, returns, packets, classes, tally-Balanced,
}

abbrev first_entry : ℕ → ℕ → ℕ × ℕ
first_entry r n = (0, r)

abbrev inside : SocketAddr
inside = socket_addr (IpAddr.v4 (10 ∷ 0 ∷ 0 ∷ 2 ∷ [])) 5000

abbrev remote : IpAddr
remote = IpAddr.v4 (1 ∷ 2 ∷ 3 ∷ 4 ∷ [])

abbrev answered : RemoteFlow
answered = record {
  addr = remote;
  port = 53;
  state = FlowState.tcp_established;
  fin_up = true;
  fin_down = false;
  last_seen = 10;
}

abbrev mapping : Mapping
mapping = record {
  owner = 7;
  proto = MapProto.tcp;
  internal = inside;
  external_port = 40001;
  remotes = answered ∷ [];
  last_seen = 10;
  pinned = false;
  older = none;
  newer = none;
}

abbrev four_ports : NatConfig
four_ports = record default_config { pool_start = 40000; pool_end = 40003 }

-- The mapping 1 is due at the time 20.
abbrev one_flow : Napt ℕ (Unit {0})
one_flow = record (with_rng four_ports tt 0) {
  exit = some (1 ∷ []);
  v4 = some (192 ∷ 0 ∷ 2 ∷ 1 ∷ []);
  mappings = (1, mapping) ∷ [];
  recency = ((7, MapProto.tcp), (1, 1)) ∷ [];
  outbound = ((MapProto.tcp, inside.ip, 5000), 1) ∷ [];
  inbound = ((MapProto.tcp, false, 40001), 1) ∷ [];
  peer_counts = ((7, MapProto.tcp), 1) ∷ [];
  expiry = (20, 1) ∷ (500, 1) ∷ [];
  next_id = 2;
}

one_flow-IsMap : IsMap one_flow.mappings
unfolding IsMap lookup
one_flow-IsMap = (refl, tt)

flush_peer-kept_example :
    identity_at (flush_peer one_flow 7) 1 ≡ kept (of_peer 7) (identity_at one_flow 1)
flush_peer-kept_example = flush_peer-kept one_flow 7 1 one_flow-IsMap

-- Another exit grants the same address.
abbrev other_exit : EpochId
other_exit = record { exit = 2 ∷ []; generation = 1 }

abbrev same_address : List ℕ
same_address = 192 ∷ 0 ∷ 2 ∷ 1 ∷ []

set_external-kept_example :
    identity_at (set_external one_flow other_exit same_address none) 1
    ≡ kept (of_epoch one_flow other_exit same_address none) (identity_at one_flow 1)
set_external-kept_example = set_external-kept one_flow other_exit same_address none 1 one_flow-IsMap

mapping_for_uplink-Owned_example :
    Owned 7 (mapping_for_uplink first_entry one_flow 7 MapProto.udp inside 30)
mapping_for_uplink-Owned_example =
    mapping_for_uplink-Owned first_entry one_flow 7 MapProto.udp inside 30

accept_downlink-Filters_example :
    Filters one_flow mapping remote 53 (accept_downlink one_flow 1 remote 53 16 30)
unfolding lookup
accept_downlink-Filters_example = accept_downlink-Filters one_flow 1 mapping remote 53 16 30 refl

one_flow-due : due 100 one_flow.expiry < 2
unfolding due
one_flow-due = omega arith

sweep_rounds-Swept_example : Swept 100 (sweep_rounds 2 one_flow 100)
sweep_rounds-Swept_example = sweep_rounds-Swept 2 one_flow 100 one_flow-due

abbrev events : List Event
events = up (done tt) ∷ down (refused NatDrop.no_mapping) ∷ up (refused NatDrop.peer_cap) ∷ []

tally-Balanced_example :
    (packets (tally events empty_counters) ≡ returns events)
    × (classes (tally events empty_counters)
        ≡ (tally events empty_counters).uplink_dropped
          + (tally events empty_counters).downlink_dropped)
tally-Balanced_example = tally-Balanced events

-- The flow 1 has been silent for more than two hours, and is no pinned forward.
abbrev is_pinned : Option Identity → Bool
is_pinned none = false
is_pinned (some i) = i.pinned

one_flow-expired : expired one_flow 8_000_000_000_000 1 ≡ true
unfolding lookup expired_of idle all_silent patience opening with_rng default_config
one_flow-expired = refl

-- A pinned forward whose entry comes up a day after its last packet is forgotten.
abbrev idle_forward : Napt ℕ (Unit {0})
idle_forward = record one_flow {
  mappings = (1, record mapping { pinned = true; last_seen = 0 }) ∷ [];
}

idle_forward-forgotten : identity_at (sweep_entry idle_forward 86_400_000_000_000 1 []).1 1 ≡ none
unfolding sweep_entry lookup deadline_of remove_mapping unlink remove
idle_forward-forgotten = refl

-- A packet of the peer 7, with a constant in place of the checksums.
abbrev no_checksums : Checksum
no_checksums = record {
  incremental_checksum_update = λ ck old new. ck;
  internet_checksum = λ sum bytes. 0;
  icmpv6_pseudo_sum = λ src dst len. 0;
}

abbrev peer_seven : Unit {0} → IpAddr → Option ℕ
peer_seven table addr = some 7

abbrev sent : Machine ℕ (Unit {0})
sent = record { pkt = datagram; nat = one_flow }

translate_uplink-counts_example :
    (translate_uplink no_checksums first_entry peer_seven 7 30 sent).1.nat.counters
    ≡ tally_uplink
        (translate_uplink no_checksums first_entry peer_seven 7 30 sent).0
        sent.nat.counters
translate_uplink-counts_example =
    translate_uplink-counts no_checksums first_entry peer_seven 7 30 sent

translate_downlink-counts_example :
    (translate_downlink no_checksums 30 sent).1.nat.counters
    ≡ tally_downlink (translate_downlink no_checksums 30 sent).0 sent.nat.counters
translate_downlink-counts_example = translate_downlink-counts no_checksums 30 sent
