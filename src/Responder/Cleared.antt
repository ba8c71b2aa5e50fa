-- ===== src/Responder/Cleared.antt =====
-- crates/warren-bolthole-core/src/responder.rs: which packets the responder lets into the tunnel.
use warren_sdk_rs.Prelude.{
  ℕ, ◌/◌, ◌≡◌, sym, ◌∙◌, ap, subst, inl, inr, Bool, true, false, Option, none, some, List,
  Bool-cases, Option-cases, any, ltb, length,
}
use warren_sdk_rs.Prelude.Map.{nat_eq, list_eq, lookup}
use warren_sdk_rs.Prelude.Outcomes.{Result}
use warren_sdk_rs.Bytes.{Checked, ok}
use warren_sdk_rs.Ip.{SocketAddr}
use warren_sdk_rs.Napt.Types.{addr_eq}
use warren_sdk_rs.Plan.{Addr, IpNetwork}
use warren_sdk_rs.Conf.{net_contains}
use warren_sdk_rs.RateLimit.HandshakeBuckets.{admit}
use warren_sdk_rs.Responder.Counters as Counters
use warren_sdk_rs.Responder.Counters.{DropReason}
use warren_sdk_rs.Responder.Types.{
  Gate, TunnResult, Packet, Crates, Inbound, uplink, loopback, Peer, Outcome, network, tunnel,
  failed,
}
use warren_sdk_rs.Responder.Sessions.{State, summarize, decapsulate}
use warren_sdk_rs.Responder.Frames.{
  decapsulate-gate, roam-gate, decapsulate-policy, roam-policy, Stays, decapsulate-Stays,
  roam-Stays, decapsulate-outcome,
}
use warren_sdk_rs.Responder.Verdict.{owns}
use warren_sdk_rs.Responder.Verdict.Decided.{Public, Neighbour, policy}
use warren_sdk_rs.Responder.Datagram.{
  receive, settle, roam, demux, settle_init, handshake, initiation, dispatch, answer_verified,
  handle_datagram,
}
use warren_sdk_rs.Responder.Judged.{
  Kept, replied, absorbed, refused, Admitted, Judged, receive-Judged,
}

module _ {W T N4 N6 R : Type 0} (o : Crates W T N4 N6 R) where
  -- The engine, in the state `limiter`, opened the datagram as a packet of the peer: it comes from an
  -- address that the peer owns, and the gate is open.
  pub record Sender (limiter : W) (s : State o) (src : SocketAddr) (datagram : List ℕ) (id : ℕ)
      (packet : List ℕ) : Type 0 where
    pub peer : Peer T N4 N6
    pub known : lookup id s.peers ≡ some peer
    pub inner : Addr
    pub authentic :
        summarize (o.engine.decapsulate limiter peer.tunn (some src.ip) datagram).0
        ≡ tunnel packet inner
    pub owned : owns o peer inner ≡ true
    pub is_open : s.gate.is_open ≡ true

  -- What a datagram becomes.
  pub data Cleared (limiter : W) (s : State o) (src : SocketAddr) (datagram : List ℕ)
      : Checked Inbound → Type 0 where
    uplinked :
        (id : ℕ) (packet : List ℕ)
        → Sender limiter s src datagram id packet
        → Public o (policy s) packet
        → Cleared limiter s src datagram (ok (uplink id packet))
    crossed :
        (id to : ℕ) (packet : List ℕ)
        → Sender limiter s src datagram id packet
        → Neighbour o (policy s) packet to
        → Cleared limiter s src datagram (ok (loopback to packet))
    kept : {r : Checked Inbound} → Kept o r → Cleared limiter s src datagram r

  abbrev owned_at : Addr → Option (Peer T N4 N6) → Bool
  owned_at inner none = false
  owned_at inner (some p) = any (λ network. net_contains o.ip4 o.ip6 network inner) p.allowed

  module _ (src : SocketAddr) (datagram : List ℕ) (id : ℕ) (peer : Peer T N4 N6) (s t : State o)
      (known : lookup id s.peers ≡ some peer) (stays : Stays o id peer t) (gate : t.gate ≡ s.gate)
      (same : policy t ≡ policy s) where
    Admitted-Sender :
        (packet : List ℕ) (inner : Addr)
        → summarize (o.engine.decapsulate s.limiter peer.tunn (some src.ip) datagram).0
          ≡ tunnel packet inner
        → Admitted o t id inner
        → Sender s.limiter s src datagram id packet
    unfolding Stays owns
    Admitted-Sender packet inner e a = record {
      peer = peer;
      known = known;
      inner = inner;
      authentic = e;
      owned =
          ap
            (λ (nets : List (IpNetwork N4 N6)).
              any (λ network. net_contains o.ip4 o.ip6 network inner) nets)
            (sym stays.2)
          ∙ ap (owned_at inner) (sym stays.1 ∙ a.known)
          ∙ a.owned;
      is_open = ap (λ (g : Gate). g.is_open) (sym gate) ∙ a.is_open;
    }

    settle-Cleared :
        (outcome : Outcome) (now : ℕ)
        → summarize (o.engine.decapsulate s.limiter peer.tunn (some src.ip) datagram).0 ≡ outcome
        → Cleared s.limiter s src datagram (settle o id outcome now t).0
    unfolding settle
    settle-Cleared (failed reason) now e = kept (refused reason)
    settle-Cleared Outcome.done now e = kept absorbed
    settle-Cleared (network bytes kind) now e = elim (Bool-cases t.gate.is_open) [
      | inl f ↦ rw (settle, f) (kept (replied bytes))
      | inr f ↦ rw (settle, f) (kept (refused _))
    ]
    settle-Cleared (tunnel packet inner) now e =
        judged (receive o id packet inner now t).0 (receive-Judged o id packet inner now t)
      where
        judged :
            (r : Checked Inbound)
            → Judged o t id packet inner r
            → Cleared s.limiter s src datagram r
        judged _ (Judged.uplinked a public) =
            uplinked id packet (Admitted-Sender packet inner e a)
              (subst (λ p. Public o p packet) same public)
        judged _ (Judged.crossed to a near) =
            crossed id to packet (Admitted-Sender packet inner e a)
              (subst (λ p. Neighbour o p packet to) same near)
        judged _ (Judged.kept k) = kept k

  demux-Cleared :
      (src : SocketAddr) (datagram : List ℕ) (index kind now : ℕ) (s : State o)
      → Cleared s.limiter s src datagram (demux o src datagram index kind now s).0
  unfolding demux
  demux-Cleared src datagram index kind now s =
      let id = index / 256 in
      let (outcome, s') = decapsulate o id src datagram s in
      elim (Option-cases (lookup id s.peers)) [
        | inl e ↦ rw (demux, e) (kept (refused _))
        | inr (peer, e) ↦
            rw (demux, e)
              (settle-Cleared src datagram id peer s (roam o id src kind outcome s') e
                (roam-Stays o id src kind outcome s' peer (decapsulate-Stays o id src datagram s e))
                (roam-gate o id src kind outcome s' ∙ decapsulate-gate o id src datagram s)
                (roam-policy o id src kind outcome s' ∙ decapsulate-policy o id src datagram s)
                outcome now (sym (decapsulate-outcome o id src datagram s e)))
      ]

  settle_init-Kept :
      (id : ℕ) (src : SocketAddr) (outcome : Outcome) (s : State o)
      → Kept o (settle_init o id src outcome s).0
  unfolding settle_init
  settle_init-Kept id src (network bytes kind) s = replied bytes
  settle_init-Kept id src (failed reason) s = refused reason
  settle_init-Kept id src Outcome.done s = refused _
  settle_init-Kept id src (tunnel packet inner) s = refused _

  handshake-Kept :
      (src : SocketAddr) (datagram init : List ℕ) (s : State o)
      → Kept o (handshake o src datagram init s).0
  unfolding handshake
  handshake-Kept src datagram init s =
      elim (Option-cases (o.engine.parse_handshake_anon s.key.secret s.key.public init)) [
        | inl e ↦ rw (handshake, e) (refused _)
        | inr (public, e) ↦ elim (Option-cases (lookup public s.by_pubkey)) [
          | inl f ↦ rw (handshake, e, f) (refused _)
          | inr (id, f) ↦
              let (outcome, s') = decapsulate o id src datagram s in
              rw (handshake, e, f) (settle_init-Kept id src outcome s')
        ]
      ]

  initiation-Kept :
      (src : SocketAddr) (datagram init : List ℕ) (now : ℕ) (s : State o)
      → Kept o (initiation o src datagram init now s).0
  unfolding initiation
  initiation-Kept src datagram init now s = elim (Bool-cases s.gate.is_open) [
    | inr shut ↦ rw (initiation, shut) (refused _)
    | inl unlocked ↦ elim (Bool-cases (admit s.per_source src.ip now).0) [
      | inr spent ↦ rw (initiation, unlocked, spent) (refused _)
      | inl admitted ↦ rw (initiation, unlocked, admitted) (handshake-Kept src datagram init _)
    ]
  ]

  -- The state in which a datagram is dispatched.
  abbrev entered : W → State o → State o
  entered limiter s = record s { limiter = limiter; counters = Counters.datagram s.counters }

  entered-Sender :
      (limiter : W) (s : State o) (src : SocketAddr) (datagram : List ℕ) (id : ℕ) (packet : List ℕ)
      → Sender limiter (entered limiter s) src datagram id packet
      → Sender limiter s src datagram id packet
  entered-Sender limiter s src datagram id packet h = record {
    peer = h.peer;
    known = h.known;
    inner = h.inner;
    authentic = h.authentic;
    owned = h.owned;
    is_open = h.is_open;
  }

  entered-Cleared :
      (limiter : W) (s : State o) (src : SocketAddr) (datagram : List ℕ) (r : Checked Inbound)
      → Cleared limiter (entered limiter s) src datagram r
      → Cleared limiter s src datagram r
  entered-Cleared limiter s src datagram _ (Cleared.uplinked id packet h p) =
      uplinked id packet (entered-Sender limiter s src datagram id packet h) p
  entered-Cleared limiter s src datagram _ (Cleared.crossed id to packet h p) =
      crossed id to packet (entered-Sender limiter s src datagram id packet h) p
  entered-Cleared limiter s src datagram _ (Cleared.kept k) = kept k

  dispatch-Cleared :
      (src : SocketAddr) (datagram : List ℕ) (packet : Packet) (now : ℕ) (s : State o)
      → Cleared s.limiter s src datagram (dispatch o src datagram packet now s).0
  unfolding dispatch
  dispatch-Cleared src datagram (Packet.handshake_init init) now s =
      kept (initiation-Kept src datagram init now s)
  dispatch-Cleared src datagram (Packet.handshake_response index) now s =
      demux-Cleared src datagram index 2 now s
  dispatch-Cleared src datagram (Packet.packet_cookie_reply index) now s =
      demux-Cleared src datagram index 3 now s
  dispatch-Cleared src datagram (Packet.packet_data index) now s =
      demux-Cleared src datagram index 4 now s

  answer_verified-Cleared :
      (src : SocketAddr) (datagram : List ℕ) (now : ℕ) (verified : Result Packet TunnResult)
      (s : State o)
      → Cleared s.limiter s src datagram (answer_verified o src datagram now verified s).0
  unfolding answer_verified
  answer_verified-Cleared src datagram now (Result.ok packet) s =
      dispatch-Cleared src datagram packet now s
  answer_verified-Cleared src datagram now (Result.err (TunnResult.write_to_network bytes)) s =
      kept (replied bytes)
  answer_verified-Cleared src datagram now (Result.err TunnResult.done) s = kept (refused _)
  answer_verified-Cleared src datagram now (Result.err (TunnResult.err e)) s = kept (refused _)
  answer_verified-Cleared src datagram now (Result.err (TunnResult.write_to_tunnel_v4 b a)) s =
      kept (refused _)
  answer_verified-Cleared src datagram now (Result.err (TunnResult.write_to_tunnel_v6 b a)) s =
      kept (refused _)

  -- A datagram gives a packet for the tunnel only where the engine opened it as a packet of a live peer,
  -- from an address that this peer owns, with the gate open, and the packet goes where peers may reach:
  -- to a unicast address that is neither the gateway's nor a peer's nor in the peers' subnet, and that is
  -- the exit's resolver on its port, or else outside the tunnel pool, not private, and of a family that the
  -- epoch carries. A packet for another peer meets the same conditions on its source, that peer owns its
  -- destination, and peers are not isolated.
  pub handle_datagram-Cleared :
      (src : SocketAddr) (datagram : List ℕ) (now : ℕ) (s : State o)
      → Cleared
          (o.engine.verify_packet s.limiter src.ip datagram).1
          s
          src
          datagram
          (handle_datagram o src datagram now s).0
  unfolding handle_datagram
  handle_datagram-Cleared src datagram now s = elim (Bool-cases (ltb 65535 (length datagram))) [
    | inl long ↦ rw (handle_datagram, long) (kept (refused _))
    | inr short ↦
        let (verified, limiter) = o.engine.verify_packet s.limiter src.ip datagram in
        rw (handle_datagram, short)
          (entered-Cleared limiter s src datagram _
            (answer_verified-Cleared src datagram now verified (entered limiter s)))
  ]
