-- ===== src/Responder/Downlink.antt =====
-- crates/warren-bolthole-core/src/responder.rs: the packets for a peer, and what the engine queued.
use warren_sdk_rs.Prelude.{ℕ, ◌+◌, not, Option, none, some, List, [], ◌==◌, length, if◌then◌else◌}
use warren_sdk_rs.Prelude.Map.{nat_eq, lookup}
use warren_sdk_rs.Prelude.Outcomes.{Result, ok, err}
use warren_sdk_rs.Ip.{SocketAddr}
use warren_sdk_rs.Plan.{Addr}
use warren_sdk_rs.Responder.Counters as Counters
use warren_sdk_rs.Responder.Counters.{no_route}
use warren_sdk_rs.Responder.Types.{
  TunnResult, Crates, Encapsulated, sent, deferred, RouteError, PeerStats,
}
use warren_sdk_rs.Responder.Sessions.{first_byte, State, with_peer, count}

module _ {W T N4 N6 R : Type 0} (o : Crates W T N4 N6 R) where
  -- Any result but a datagram is the end of the queue.
  abbrev pub queued : TunnResult → Option (List ℕ)
  queued (TunnResult.write_to_network bytes) = some bytes
  queued _ = none

  unfoldable pub flush : ℕ → State o → Option (List ℕ) × State o
  flush id s = if not s.gate.is_open then (none, s) else elim (lookup id s.peers) [
    | none ↦ (none, s)
    | some peer ↦
        let (result, tunn, limiter) = o.engine.decapsulate s.limiter peer.tunn none [] in
        (
          queued result,
          with_peer o id (λ p. record p { tunn = tunn }) (record s { limiter = limiter }),
        )
  ]

  -- The last `match` of `send_to_peer`, on what the engine wrote with its kind, and the endpoint.
  unfoldable pub addressed :
      Option (List ℕ × ℕ) → Option SocketAddr → State o → Encapsulated × State o
  addressed none endpoint s = (deferred none, count o Counters.downlink_queued s)
  addressed (some (bytes, kind)) (some to) s =
      if kind == 4
      then (sent to bytes, s)
      else (deferred (some (to, bytes)), count o Counters.downlink_queued s)
  addressed (some (bytes, kind)) none s =
      if kind == 4 then (deferred none, count o Counters.dropped_without_endpoint s) else (
        deferred none,
        count o Counters.dropped_without_endpoint (count o Counters.downlink_queued s),
      )

  -- A packet that was not encrypted is counted as deferred.
  abbrev pub defer : Option (List ℕ × ℕ) → ℕ → PeerStats → PeerStats
  defer none size stats = record stats { deferred = stats.deferred + 1 }
  defer (some (bytes, kind)) size stats =
      if kind == 4
      then record stats { tx_bytes = stats.tx_bytes + size }
      else record stats { deferred = stats.deferred + 1 }

  -- `send_to_peer` past the engine's call, where the engine did not refuse.
  unfoldable pub hand_over :
      ℕ
      → Option (List ℕ × ℕ)
      → ℕ
      → Option SocketAddr
      → State o
      → Result Encapsulated RouteError × State o
  unfolding addressed
  hand_over id outcome size endpoint s =
      let (encapsulated, s') =
        addressed outcome endpoint
          (with_peer o id (λ p. record p { stats = defer outcome size p.stats }) s) in
      (ok encapsulated, s')

  -- What the engine did with a packet of `size` bytes.
  unfoldable pub hand_result :
      ℕ → TunnResult → ℕ → Option SocketAddr → State o → Result Encapsulated RouteError × State o
  unfolding hand_over
  hand_result id (TunnResult.write_to_network bytes) size endpoint s =
      hand_over id (some (bytes, first_byte bytes)) size endpoint s
  hand_result id TunnResult.done size endpoint s = hand_over id none size endpoint s
  hand_result id _ size endpoint s = (err RouteError.encapsulation, s)

  unfoldable pub send_to_peer : ℕ → List ℕ → State o → Result Encapsulated RouteError × State o
  unfolding hand_result
  send_to_peer id packet s =
      if not s.gate.is_open then (err RouteError.gate_closed, s) else elim (lookup id s.peers) [
        | none ↦ (err RouteError.unknown_peer, s)
        | some peer ↦
            let (result, tunn, limiter) = o.engine.encapsulate s.limiter peer.tunn packet in
            hand_result id result (length packet) peer.endpoint
              (with_peer o id (λ p. record p { tunn = tunn }) (record s { limiter = limiter }))
      ]

  unfoldable pub encapsulate_to : Addr → List ℕ → State o → Result Encapsulated RouteError × State o
  unfolding send_to_peer
  encapsulate_to dst packet s = elim (o.routing.longest_match s.routes dst) [
    | none ↦ (err RouteError.no_route, count o (Counters.dropped no_route) s)
    | some (network, owner) ↦ send_to_peer owner packet s
  ]
