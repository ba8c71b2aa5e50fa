-- ===== src/Napt/Translate/Counters.antt =====
-- The counters of stats.rs over any sequence of packets.
use warren_sdk_rs.Prelude.{ℕ, ◌+◌, ◌≡◌, List, [], ◌∷◌, arith}
use warren_sdk_rs.Napt.Types.{NatDrop, Snapshot}
use warren_sdk_rs.Napt.Table.{empty_counters}
use warren_sdk_rs.Napt.Translate.{by_class, tally_uplink, tally_downlink}
use warren_sdk_rs.Napt.Translate.Monad.{Run, done, refused, panics}

-- What became of a packet from a peer, or of one from the tunnel.
pub data Event : Type 0 where
  up down : Run (Unit {0}) → Event

unfoldable pub tally : List Event → Snapshot → Snapshot
tally [] t = t
tally (up r ∷ events) t = tally events (tally_uplink r t)
tally (down r ∷ events) t = tally events (tally_downlink r t)

-- The packets that the code returned for.
unfoldable pub returns : List Event → ℕ
returns [] = 0
returns (up panics ∷ events) = returns events
returns (down panics ∷ events) = returns events
returns (_ ∷ events) = 1 + returns events

abbrev pub packets : Snapshot → ℕ
packets t = t.uplink_translated + t.downlink_translated + t.uplink_dropped + t.downlink_dropped

abbrev pub classes : Snapshot → ℕ
classes t =
    t.source_not_owned + t.no_mapping + t.port_exhausted + t.peer_cap + t.fragment
    + t.v6_extension_header + t.unsupported_protocol + t.malformed + t.family_unavailable

by_class-counts :
    (d : NatDrop) (t : Snapshot)
    → (classes (by_class d t) ≡ classes t + 1)
      × (packets (by_class d t) ≡ packets t)
      × ((by_class d t).uplink_dropped ≡ t.uplink_dropped)
      × ((by_class d t).downlink_dropped ≡ t.downlink_dropped)
unfolding by_class
by_class-counts d t = ground arith

uplink-counts :
    (r : Run (Unit {0})) (t : Snapshot)
    → (packets (tally_uplink r t) ≡ packets t + returns (up r ∷ []))
      × (classes (tally_uplink r t) + (t.uplink_dropped + t.downlink_dropped)
          ≡ classes t + ((tally_uplink r t).uplink_dropped + (tally_uplink r t).downlink_dropped))
unfolding tally_uplink returns
uplink-counts (done _) t = (omega arith, omega arith)
uplink-counts (refused d) t =
    let t' = record t { uplink_dropped = t.uplink_dropped + 1 } in
    (omega (arith, by_class-counts d t'), omega (arith, by_class-counts d t'))
uplink-counts panics t = (omega arith, omega arith)

downlink-counts :
    (r : Run (Unit {0})) (t : Snapshot)
    → (packets (tally_downlink r t) ≡ packets t + returns (down r ∷ []))
      × (classes (tally_downlink r t) + (t.uplink_dropped + t.downlink_dropped)
          ≡ classes t
            + ((tally_downlink r t).uplink_dropped + (tally_downlink r t).downlink_dropped))
unfolding tally_downlink returns
downlink-counts (done _) t = (omega arith, omega arith)
downlink-counts (refused d) t =
    let t' = record t { downlink_dropped = t.downlink_dropped + 1 } in
    (omega (arith, by_class-counts d t'), omega (arith, by_class-counts d t'))
downlink-counts panics t = (omega arith, omega arith)

tally-counts :
    (events : List Event) (t : Snapshot)
    → (packets (tally events t) ≡ packets t + returns events)
      × (classes (tally events t) + (t.uplink_dropped + t.downlink_dropped)
          ≡ classes t + ((tally events t).uplink_dropped + (tally events t).downlink_dropped))
unfolding tally returns
tally-counts [] t = (omega arith, omega arith)
tally-counts (up r ∷ events) t =
    ground (arith, tally-counts events (tally_uplink r t), uplink-counts r t)
tally-counts (down r ∷ events) t =
    ground (arith, tally-counts events (tally_downlink r t), downlink-counts r t)

-- From the counters at their start, after any sequence of packets in the two directions: the four
-- totals add up to the number of packets that the translator returned for, and the nine classes add
-- up to the packets refused.
pub tally-Balanced :
    (events : List Event)
    → (packets (tally events empty_counters) ≡ returns events)
      × (classes (tally events empty_counters)
          ≡ (tally events empty_counters).uplink_dropped
            + (tally events empty_counters).downlink_dropped)
unfolding empty_counters
tally-Balanced events = ground (arith, tally-counts events empty_counters)
