-- ===== src/Responder/Datagram.antt =====
-- crates/warren-bolthole-core/src/responder.rs: the path of a datagram from the network.
use warren_sdk_rs.Prelude.{
  ℕ, ◌+◌, ◌/◌, Bool, true, false, not, ◌&&◌, ◌||◌, none, some, List, ltb, ◌==◌, is_some, length,
  if◌then◌else◌,
}
use warren_sdk_rs.Prelude.Map.{nat_eq, list_eq, lookup}
use warren_sdk_rs.Prelude.Outcomes.{Result}
use warren_sdk_rs.Bytes.{Checked, ok, index}
use warren_sdk_rs.Ip.{SocketAddr}
use warren_sdk_rs.Napt.Types.{addr_eq}
use warren_sdk_rs.Plan.{Addr}
use warren_sdk_rs.RateLimit.HandshakeBuckets.{admit}
use warren_sdk_rs.Responder.Counters as Counters
use warren_sdk_rs.Responder.Counters.{
  DropReason, oversize, malformed, gate_closed, source_rate_limited, unknown_peer, unknown_index,
  auth, replay, spoofed_source, link_local_source, private_destination,
}
use warren_sdk_rs.Responder.Types.{
  TunnResult, Packet, Crates, Inbound, reply, consumed, dropped, Outcome, network, tunnel, failed,
}
use warren_sdk_rs.Responder.Sessions.{
  State, with_peer, count, note, note_for, drop, drop_for, decapsulate,
}
use warren_sdk_rs.Responder.Verdict.{is_link_local, owns}
use warren_sdk_rs.Responder.Deliver.{deliver}

-- Whether a peer's endpoint moves to the source of a datagram of this kind.
unfoldable pub roams : ℕ → Outcome → Bool
roams kind (failed _) = false
roams kind (network bytes out) = kind == 4 || (kind == 2 && not (out == 3))
roams kind (tunnel _ _) = kind == 4
roams kind Outcome.done = kind == 4

module _ {W T N4 N6 R : Type 0} (o : Crates W T N4 N6 R) where
  -- The arm of `demux` for a decrypted packet, whose source is `inner`.
  unfoldable pub receive : ℕ → List ℕ → Addr → ℕ → State o → Checked Inbound × State o
  unfolding note note_for deliver
  receive id packet inner now s = elim (lookup id s.peers) [
    | none ↦ drop o unknown_index s
    | some peer ↦
        if not (owns o peer inner)
        then drop_for o id (if is_link_local inner then link_local_source else spoofed_source) s
        else if not s.gate.is_open
        then drop_for o id gate_closed s
        else deliver o id packet now (
            with_peer o id
              (λ p. record p {
                stats = record p.stats { rx_bytes = p.stats.rx_bytes + length packet };
              })
              s)
  ]

  -- The last `match` of `demux`.
  unfoldable pub settle : ℕ → Outcome → ℕ → State o → Checked Inbound × State o
  unfolding note_for receive
  settle id outcome now s = elim outcome [
    | failed reason ↦ drop_for o id reason s
    | Outcome.done ↦ (ok consumed, s)
    | network bytes _ ↦
        if not s.gate.is_open
        then drop_for o id gate_closed s
        else (ok (reply bytes), count o (Counters.reply false) s)
    | tunnel packet inner ↦ receive id packet inner now s
  ]

  unfoldable pub roam : ℕ → SocketAddr → ℕ → Outcome → State o → State o
  unfolding roams
  roam id src kind outcome s =
      if roams kind outcome then with_peer o id (λ p. record p { endpoint = some src }) s else s

  -- A session index names its peer in its high 24 bits.
  unfoldable pub demux : SocketAddr → List ℕ → ℕ → ℕ → ℕ → State o → Checked Inbound × State o
  unfolding note decapsulate roam settle
  demux src datagram receiver_idx kind now s =
      let id = receiver_idx / 256 in
      if not (is_some (lookup id s.peers))
      then drop o unknown_index s
      else (let (outcome, s') = decapsulate o id src datagram s in
          settle id outcome now (roam id src kind outcome s'))

  -- The last `match` on an initiation, after the handshake itself.
  unfoldable pub settle_init : ℕ → SocketAddr → Outcome → State o → Checked Inbound × State o
  unfolding note_for
  settle_init id src outcome s = elim outcome [
    | network bytes kind ↦
        let s' : State o =
          if kind == 2
          then count o Counters.handshake (
              with_peer o id
                (λ p. record p {
                  endpoint = some src;
                  stats = record p.stats { handshakes = p.stats.handshakes + 1 };
                })
                s)
          else s in
        (ok (reply bytes), count o (Counters.reply (kind == 3)) s')
    | failed reason ↦ drop_for o id reason s
    | _ ↦ drop_for o id auth s
  ]

  -- The initiation, once its source is within its budget.
  unfoldable pub handshake : SocketAddr → List ℕ → List ℕ → State o → Checked Inbound × State o
  unfolding note decapsulate settle_init
  handshake src datagram init s =
      elim (o.engine.parse_handshake_anon s.key.secret s.key.public init) [
        | none ↦ drop o auth s
        | some public ↦ elim (lookup public s.by_pubkey) [
          | none ↦ drop o unknown_peer s
          | some id ↦
              let (outcome, s') = decapsulate o id src datagram s in settle_init id src outcome s'
        ]
      ]

  unfoldable pub initiation : SocketAddr → List ℕ → List ℕ → ℕ → State o → Checked Inbound × State o
  unfolding note handshake
  initiation src datagram init now s =
      if not s.gate.is_open
      then (ok (dropped gate_closed), count o Counters.handshake_refused_gate_closed s)
      else (let (admitted, per_source) = admit s.per_source src.ip now in
          let s' = record s { per_source = per_source } in
          if not admitted then drop o source_rate_limited s' else handshake src datagram init s')

  -- The `match` on the parsed datagram.
  unfoldable pub dispatch : SocketAddr → List ℕ → Packet → ℕ → State o → Checked Inbound × State o
  unfolding initiation demux
  dispatch src datagram (Packet.handshake_init init) now s = initiation src datagram init now s
  dispatch src datagram (Packet.handshake_response index) now s = demux src datagram index 2 now s
  dispatch src datagram (Packet.packet_cookie_reply index) now s = demux src datagram index 3 now s
  dispatch src datagram (Packet.packet_data index) now s = demux src datagram index 4 now s

  -- What follows verification: a cookie is sent, and any other refusal is dropped.
  unfoldable pub answer_verified :
      SocketAddr → List ℕ → ℕ → Result Packet TunnResult → State o → Checked Inbound × State o
  unfolding note dispatch
  answer_verified src datagram now (Result.ok packet) s = dispatch src datagram packet now s
  answer_verified src datagram now (Result.err (TunnResult.write_to_network cookie)) s =
      (ok (reply cookie), count o (Counters.reply true) s)
  answer_verified src datagram now (Result.err _) s = drop o malformed s

  unfoldable pub handle_datagram : SocketAddr → List ℕ → ℕ → State o → Checked Inbound × State o
  unfolding note answer_verified
  handle_datagram src datagram now s0 =
      let s = count o Counters.datagram s0 in
      if ltb 65535 (length datagram)
      then drop o oversize s
      else (let (verified, limiter) = o.engine.verify_packet s.limiter src.ip datagram in
          answer_verified src datagram now verified (record s { limiter = limiter }))
