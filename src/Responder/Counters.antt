-- ===== src/Responder/Counters.antt =====
-- The responder's half of crates/warren-bolthole-core/src/stats.rs, with the classes of peer.rs.
use warren_sdk_rs.Prelude.{ℕ, ◌+◌, Bool, if◌then◌else◌}

pub data DropReason : Type 0 where
  oversize malformed gate_closed source_rate_limited unknown_peer : DropReason
  unknown_index auth replay spoofed_source link_local_source : DropReason
  non_unicast self_destination peer_isolation unowned_peer_address pool_destination : DropReason
  private_destination v6_unavailable v6_budget no_route : DropReason

-- The counters do not wrap: they have 64 bits.
pub record ResponderSnapshot : Type 0 where
  pub datagrams : ℕ
  pub handshakes : ℕ
  pub uplink : ℕ
  pub replies : ℕ
  pub cookies : ℕ
  pub loopback : ℕ
  pub dropped : ℕ
  pub handshake_refused_gate_closed : ℕ
  pub dropped_gate_closed : ℕ
  pub source_rate_limited : ℕ
  pub unknown_peer : ℕ
  pub unknown_index : ℕ
  pub auth_failed : ℕ
  pub replayed : ℕ
  pub spoofed_source : ℕ
  pub link_local_source : ℕ
  pub oversize : ℕ
  pub malformed : ℕ
  pub non_unicast : ℕ
  pub self_destination : ℕ
  pub peer_isolation : ℕ
  pub unowned_peer_address : ℕ
  pub pool_destination : ℕ
  pub private_destination : ℕ
  pub v6_unavailable : ℕ
  pub v6_budget : ℕ
  pub no_route : ℕ
  pub downlink_queued : ℕ
  pub downlink_dropped_no_endpoint : ℕ
  pub answers_suppressed : ℕ
  pub clock_jump_resets : ℕ

unfoldable pub zeros : ResponderSnapshot
zeros = record {
  datagrams = 0;
  handshakes = 0;
  uplink = 0;
  replies = 0;
  cookies = 0;
  loopback = 0;
  dropped = 0;
  handshake_refused_gate_closed = 0;
  dropped_gate_closed = 0;
  source_rate_limited = 0;
  unknown_peer = 0;
  unknown_index = 0;
  auth_failed = 0;
  replayed = 0;
  spoofed_source = 0;
  link_local_source = 0;
  oversize = 0;
  malformed = 0;
  non_unicast = 0;
  self_destination = 0;
  peer_isolation = 0;
  unowned_peer_address = 0;
  pool_destination = 0;
  private_destination = 0;
  v6_unavailable = 0;
  v6_budget = 0;
  no_route = 0;
  downlink_queued = 0;
  downlink_dropped_no_endpoint = 0;
  answers_suppressed = 0;
  clock_jump_resets = 0;
}

unfoldable pub datagram : ResponderSnapshot → ResponderSnapshot
datagram c = record c { datagrams = c.datagrams + 1 }

unfoldable pub handshake : ResponderSnapshot → ResponderSnapshot
handshake c = record c { handshakes = c.handshakes + 1 }

unfoldable pub uplink : ResponderSnapshot → ResponderSnapshot
uplink c = record c { uplink = c.uplink + 1 }

unfoldable pub loopback : ResponderSnapshot → ResponderSnapshot
loopback c = record c { loopback = c.loopback + 1 }

unfoldable pub downlink_queued : ResponderSnapshot → ResponderSnapshot
downlink_queued c = record c { downlink_queued = c.downlink_queued + 1 }

unfoldable pub dropped_without_endpoint : ResponderSnapshot → ResponderSnapshot
dropped_without_endpoint c = record c {
  downlink_dropped_no_endpoint = c.downlink_dropped_no_endpoint + 1;
}

unfoldable pub answer_suppressed : ResponderSnapshot → ResponderSnapshot
answer_suppressed c = record c { answers_suppressed = c.answers_suppressed + 1 }

unfoldable pub clock_jump_reset : ResponderSnapshot → ResponderSnapshot
clock_jump_reset c = record c { clock_jump_resets = c.clock_jump_resets + 1 }

unfoldable pub reply : Bool → ResponderSnapshot → ResponderSnapshot
reply cookie c = record c {
  replies = c.replies + 1;
  cookies = if cookie then c.cookies + 1 else c.cookies;
}

-- The counter of the class.
unfoldable pub bump : DropReason → ResponderSnapshot → ResponderSnapshot
bump oversize c = record c { oversize = c.oversize + 1 }
bump malformed c = record c { malformed = c.malformed + 1 }
bump gate_closed c = record c { dropped_gate_closed = c.dropped_gate_closed + 1 }
bump source_rate_limited c = record c { source_rate_limited = c.source_rate_limited + 1 }
bump unknown_peer c = record c { unknown_peer = c.unknown_peer + 1 }
bump unknown_index c = record c { unknown_index = c.unknown_index + 1 }
bump auth c = record c { auth_failed = c.auth_failed + 1 }
bump replay c = record c { replayed = c.replayed + 1 }
bump spoofed_source c = record c { spoofed_source = c.spoofed_source + 1 }
bump link_local_source c = record c { link_local_source = c.link_local_source + 1 }
bump non_unicast c = record c { non_unicast = c.non_unicast + 1 }
bump self_destination c = record c { self_destination = c.self_destination + 1 }
bump peer_isolation c = record c { peer_isolation = c.peer_isolation + 1 }
bump unowned_peer_address c = record c { unowned_peer_address = c.unowned_peer_address + 1 }
bump pool_destination c = record c { pool_destination = c.pool_destination + 1 }
bump private_destination c = record c { private_destination = c.private_destination + 1 }
bump v6_unavailable c = record c { v6_unavailable = c.v6_unavailable + 1 }
bump v6_budget c = record c { v6_budget = c.v6_budget + 1 }
bump no_route c = record c { no_route = c.no_route + 1 }

unfoldable pub dropped : DropReason → ResponderSnapshot → ResponderSnapshot
unfolding bump
dropped reason c = bump reason (record c { dropped = c.dropped + 1 })

unfoldable pub handshake_refused_gate_closed : ResponderSnapshot → ResponderSnapshot
unfolding dropped
handshake_refused_gate_closed c =
    dropped gate_closed
      (record c { handshake_refused_gate_closed = c.handshake_refused_gate_closed + 1 })
