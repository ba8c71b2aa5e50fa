-- ===== src/Responder/Closed.antt =====
-- crates/warren-bolthole-core/src/responder.rs: what leaves the gateway while its gate is closed.
use warren_sdk_rs.Prelude.{
  ℕ, ◌/◌, ◌≡◌, refl, ap, ◌∙◌, inl, inr, false, List, Bool-cases, Option-cases, is_some, ltb, length,
}
use warren_sdk_rs.Prelude.Map.{nat_eq, list_eq, lookup}
use warren_sdk_rs.Prelude.Outcomes.{Result}
use warren_sdk_rs.Bytes.{Checked}
use warren_sdk_rs.Ip.{SocketAddr}
use warren_sdk_rs.Plan.{Addr}
use warren_sdk_rs.Responder.Counters.{DropReason}
use warren_sdk_rs.Responder.Types.{
  TunnResult, Packet, Crates, Inbound, Gate, Outcome, network, tunnel, failed,
}
use warren_sdk_rs.Responder.Sessions.{State, note, note_for, decapsulate}
use warren_sdk_rs.Responder.Frames.{decapsulate-gate, roam-gate}
use warren_sdk_rs.Responder.Verdict.{owns}
use warren_sdk_rs.Responder.Datagram.{
  roam, receive, settle, demux, initiation, dispatch, answer_verified, handle_datagram,
}

-- What a closed gate lets a datagram be: consumed, refused, or answered with the cookie that the
-- limiter wrote.
pub data Quiet (verified : Result Packet TunnResult) : Checked Inbound → Type 0 where
  nothing : Quiet verified (Checked.ok Inbound.consumed)
  refused : (reason : DropReason) → Quiet verified (Checked.ok (Inbound.dropped reason))
  cookie :
      (bytes : List ℕ)
      → verified ≡ Result.err (TunnResult.write_to_network bytes)
      → Quiet verified (Checked.ok (Inbound.reply bytes))

module _ {W T N4 N6 R : Type 0} (o : Crates W T N4 N6 R) (verified : Result Packet TunnResult) where
  -- The gate stays closed.
  abbrev pub Held : Checked Inbound × State o → Type 0
  Held (inbound, s) = Quiet verified inbound × (s.gate.is_open ≡ false)

  receive-Held :
      (id : ℕ) (packet : List ℕ) (inner : Addr) (now : ℕ) (s : State o)
      → s.gate.is_open ≡ false
      → Held (receive o id packet inner now s)
  unfolding receive note note_for
  receive-Held id packet inner now s h = elim (Option-cases (lookup id s.peers)) [
    | inl e ↦ rw (receive, e) (refused _, h)
    | inr (peer, e) ↦ elim (Bool-cases (owns o peer inner)) [
      | inl own ↦ rw (receive, e, own, h) (refused _, refl)
      | inr other ↦ rw (receive, e, other) (refused _, h)
    ]
  ]

  settle-Held :
      (id : ℕ) (outcome : Outcome) (now : ℕ) (s : State o)
      → s.gate.is_open ≡ false
      → Held (settle o id outcome now s)
  unfolding settle note note_for
  settle-Held id (failed reason) now s h = (refused _, h)
  settle-Held id Outcome.done now s h = (nothing, h)
  settle-Held id (network bytes kind) now s h = rw (settle, h) (refused _, refl)
  settle-Held id (tunnel packet inner) now s h = receive-Held id packet inner now s h

  demux-Held :
      (src : SocketAddr) (datagram : List ℕ) (index kind now : ℕ) (s : State o)
      → s.gate.is_open ≡ false
      → Held (demux o src datagram index kind now s)
  unfolding demux note
  demux-Held src datagram index kind now s h =
      let id = index / 256 in
      let (outcome, s') = decapsulate o id src datagram s in
      elim (Bool-cases (is_some (lookup id s.peers))) [
        | inl known ↦
            rw (demux, known)
              (settle-Held id outcome now (roam o id src kind outcome s') (
                ap (λ (g : Gate). g.is_open)
                  (roam-gate o id src kind outcome s' ∙ decapsulate-gate o id src datagram s)
                ∙ h))
        | inr unknown ↦ rw (demux, unknown) (refused _, h)
      ]

  dispatch-Held :
      (src : SocketAddr) (datagram : List ℕ) (packet : Packet) (now : ℕ) (s : State o)
      → s.gate.is_open ≡ false
      → Held (dispatch o src datagram packet now s)
  unfolding dispatch initiation
  dispatch-Held src datagram (Packet.handshake_init init) now s h =
      rw (initiation, h) (refused _, refl)
  dispatch-Held src datagram (Packet.handshake_response index) now s h =
      demux-Held src datagram index 2 now s h
  dispatch-Held src datagram (Packet.packet_cookie_reply index) now s h =
      demux-Held src datagram index 3 now s h
  dispatch-Held src datagram (Packet.packet_data index) now s h =
      demux-Held src datagram index 4 now s h

module _ {W T N4 N6 R : Type 0} (o : Crates W T N4 N6 R) where
  answer_verified-Held :
      (src : SocketAddr) (datagram : List ℕ) (now : ℕ) (verified : Result Packet TunnResult)
      (s : State o)
      → s.gate.is_open ≡ false
      → Held o verified (answer_verified o src datagram now verified s)
  unfolding answer_verified note
  answer_verified-Held src datagram now (Result.ok packet) s h =
      dispatch-Held o _ src datagram packet now s h
  answer_verified-Held src datagram now (Result.err (TunnResult.write_to_network bytes)) s h =
      (cookie bytes refl, h)
  answer_verified-Held src datagram now (Result.err TunnResult.done) s h = (refused _, h)
  answer_verified-Held src datagram now (Result.err (TunnResult.err e)) s h = (refused _, h)
  answer_verified-Held src datagram now (Result.err (TunnResult.write_to_tunnel_v4 bytes a)) s h =
      (refused _, h)
  answer_verified-Held src datagram now (Result.err (TunnResult.write_to_tunnel_v6 bytes a)) s h =
      (refused _, h)

  pub handle_datagram-Held :
      (src : SocketAddr) (datagram : List ℕ) (now : ℕ) (s : State o)
      → s.gate.is_open ≡ false
      → Held o
          (o.engine.verify_packet s.limiter src.ip datagram).0
          (handle_datagram o src datagram now s)
  unfolding handle_datagram note
  handle_datagram-Held src datagram now s h = elim (Bool-cases (ltb 65535 (length datagram))) [
    | inl long ↦ rw (handle_datagram, long) (refused _, h)
    | inr short ↦ rw (handle_datagram, short) (answer_verified-Held src datagram now _ _ h)
  ]
