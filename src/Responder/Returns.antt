-- ===== src/Responder/Returns.antt =====
-- crates/warren-bolthole-core/src/responder.rs: no datagram makes the responder panic.
use warren_sdk_rs.Prelude.{
  ℕ, ◌/◌, ◌≤◌, ◌≡◌, inl, inr, some, List, Bool-cases, Option-cases, is_some, length, ltb,
}
use warren_sdk_rs.Prelude.Map.{nat_eq, list_eq, lookup}
use warren_sdk_rs.Prelude.Outcomes.{Result}
use warren_sdk_rs.Bytes.{index}
use warren_sdk_rs.Bytes.Laws.{Returns, value}
use warren_sdk_rs.Ip.{SocketAddr}
use warren_sdk_rs.Napt.Types.{addr_eq}
use warren_sdk_rs.Plan.{Addr}
use warren_sdk_rs.RateLimit.HandshakeBuckets.{admit}
use warren_sdk_rs.Responder.Counters as Counters
use warren_sdk_rs.Responder.Counters.{malformed}
use warren_sdk_rs.Responder.Types.{TunnResult, Packet, Crates, Outcome, network, tunnel, failed}
use warren_sdk_rs.Responder.Sessions.{State, decapsulate}
use warren_sdk_rs.Responder.Verdict.{owns}
use warren_sdk_rs.Responder.Datagram.{
  roam, receive, settle, demux, settle_init, handshake, initiation, dispatch, answer_verified,
  handle_datagram,
}
use warren_sdk_rs.Responder.Deliver.Returns.{within, deliver-Returns}

module _ {W T N4 N6 R : Type 0} (o : Crates W T N4 N6 R)
    (named : (packet : List ℕ) (dst : Addr)
      → o.engine.dst_address packet ≡ some dst
      → 1 ≤ length packet) where
  receive-Returns :
      (id : ℕ) (packet : List ℕ) (inner : Addr) (now : ℕ) (s : State o)
      → Returns (receive o id packet inner now s).0
  unfolding receive
  receive-Returns id packet inner now s = elim (Option-cases (lookup id s.peers)) [
    | inl e ↦ rw (receive, e) (value _)
    | inr (peer, e) ↦ elim (Bool-cases (owns o peer inner)) [
      | inr other ↦ rw (receive, e, other) (value _)
      | inl own ↦
          rw (receive, e, own)
            (within o named s.gate.is_open _ _ _ (deliver-Returns o named id packet now _))
    ]
  ]

  settle-Returns :
      (id : ℕ) (outcome : Outcome) (now : ℕ) (s : State o) → Returns (settle o id outcome now s).0
  unfolding settle
  settle-Returns id (failed reason) now s = value _
  settle-Returns id Outcome.done now s = value _
  settle-Returns id (network bytes kind) now s = within o named s.gate.is_open _ _ _ (value _)
  settle-Returns id (tunnel packet inner) now s = receive-Returns id packet inner now s

  demux-Returns :
      (src : SocketAddr) (datagram : List ℕ) (index kind now : ℕ) (s : State o)
      → Returns (demux o src datagram index kind now s).0
  unfolding demux
  demux-Returns src datagram index kind now s =
      let id = index / 256 in
      let (outcome, s') = decapsulate o id src datagram s in
      elim (Bool-cases (is_some (lookup id s.peers))) [
        | inr unknown ↦ rw (demux, unknown) (value _)
        | inl known ↦
            rw (demux, known) (settle-Returns id outcome now (roam o id src kind outcome s'))
      ]

  settle_init-Returns :
      (id : ℕ) (src : SocketAddr) (outcome : Outcome) (s : State o)
      → Returns (settle_init o id src outcome s).0
  unfolding settle_init
  settle_init-Returns id src (network bytes kind) s = value _
  settle_init-Returns id src (failed reason) s = value _
  settle_init-Returns id src Outcome.done s = value _
  settle_init-Returns id src (tunnel packet inner) s = value _

  handshake-Returns :
      (src : SocketAddr) (datagram init : List ℕ) (s : State o)
      → Returns (handshake o src datagram init s).0
  unfolding handshake
  handshake-Returns src datagram init s =
      elim (Option-cases (o.engine.parse_handshake_anon s.key.secret s.key.public init)) [
        | inl e ↦ rw (handshake, e) (value _)
        | inr (public, e) ↦ elim (Option-cases (lookup public s.by_pubkey)) [
          | inl f ↦ rw (handshake, e, f) (value _)
          | inr (id, f) ↦
              let (outcome, s') = decapsulate o id src datagram s in
              rw (handshake, e, f) (settle_init-Returns id src outcome s')
        ]
      ]

  dispatch-Returns :
      (src : SocketAddr) (datagram : List ℕ) (packet : Packet) (now : ℕ) (s : State o)
      → Returns (dispatch o src datagram packet now s).0
  unfolding dispatch initiation
  dispatch-Returns src datagram (Packet.handshake_init init) now s =
      within o named s.gate.is_open _ _ _ (
        within o named (admit s.per_source src.ip now).0 _ _ _
          (handshake-Returns src datagram init _))
  dispatch-Returns src datagram (Packet.handshake_response index) now s =
      demux-Returns src datagram index 2 now s
  dispatch-Returns src datagram (Packet.packet_cookie_reply index) now s =
      demux-Returns src datagram index 3 now s
  dispatch-Returns src datagram (Packet.packet_data index) now s =
      demux-Returns src datagram index 4 now s

  answer_verified-Returns :
      (src : SocketAddr) (datagram : List ℕ) (now : ℕ) (verified : Result Packet TunnResult)
      (s : State o)
      → Returns (answer_verified o src datagram now verified s).0
  unfolding answer_verified
  answer_verified-Returns src datagram now (Result.ok packet) s =
      dispatch-Returns src datagram packet now s
  answer_verified-Returns src datagram now (Result.err (TunnResult.write_to_network b)) s = value _
  answer_verified-Returns src datagram now (Result.err TunnResult.done) s = value _
  answer_verified-Returns src datagram now (Result.err (TunnResult.err e)) s = value _
  answer_verified-Returns src datagram now (Result.err (TunnResult.write_to_tunnel_v4 b a)) s =
      value _
  answer_verified-Returns src datagram now (Result.err (TunnResult.write_to_tunnel_v6 b a)) s =
      value _

  -- Where the engine reads a destination only off a packet that is not empty: no datagram makes the
  -- responder panic, whatever its bytes, what the engine makes of them, and the state.
  pub handle_datagram-Returns :
      (src : SocketAddr) (datagram : List ℕ) (now : ℕ) (s : State o)
      → Returns (handle_datagram o src datagram now s).0
  unfolding handle_datagram
  handle_datagram-Returns src datagram now s = elim (Bool-cases (ltb 65535 (length datagram))) [
    | inl long ↦ rw (handle_datagram, long) (value _)
    | inr short ↦
        let (verified, limiter) = o.engine.verify_packet s.limiter src.ip datagram in
        rw (handle_datagram, short)
          (answer_verified-Returns src datagram now verified
            (record s { limiter = limiter; counters = Counters.datagram s.counters }))
  ]
