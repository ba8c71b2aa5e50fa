-- ===== src/Responder/Roaming.antt =====
-- crates/warren-bolthole-core/src/responder.rs: when the endpoint of a peer moves.
use warren_sdk_rs.Prelude.{
  ℕ, ◌+◌, ◌/◌, ◌≡◌, ◌⊎◌, refl, sym, ◌∙◌, ap, subst, inl, inr, Bool, true, false, not, none, some,
  List, Bool-cases, Option-cases, ◌==◌, ltb, length, if◌then◌else◌,
}
use warren_sdk_rs.Prelude.Map.{nat_eq, list_eq, lookup}
use warren_sdk_rs.Prelude.Outcomes.{Result}
use warren_sdk_rs.Bytes.{Checked}
use warren_sdk_rs.Ip.{IpAddr, SocketAddr}
use warren_sdk_rs.Napt.Types.{addr_eq}
use warren_sdk_rs.RateLimit.HandshakeBuckets.{HandshakeBuckets, admit}
use warren_sdk_rs.Responder.Counters as Counters
use warren_sdk_rs.Responder.Counters.{ResponderSnapshot, unknown_index}
use warren_sdk_rs.Responder.Types.{
  TunnResult, Packet, Crates, Inbound, Outcome, network, tunnel, failed,
}
use warren_sdk_rs.Responder.Sessions.{State, note, decapsulate}
use warren_sdk_rs.Responder.Datagram.{
  settle_init, handshake, initiation, dispatch, answer_verified, handle_datagram,
}
use warren_sdk_rs.Responder.Views.{endpoint}
use warren_sdk_rs.Responder.Frames.{decapsulate-outcome}
use warren_sdk_rs.Responder.Endpoints.{endpoint_lem, note_for-Keeps, decapsulate-Keeps}
use warren_sdk_rs.Responder.Moves.{
  update-endpoint, IsOpened, IsReply, IsResponse, roams_data, roams_response, roams_cookie, Moves,
  Answered, demux-Moves,
}

module _ {W T N4 N6 R : Type 0} (o : Crates W T N4 N6 R) where
  -- Why an endpoint may move, by the kind of the datagram: a packet of data that the session opened, a
  -- response that it answered with anything but a cookie, or an initiation, by the key of the peer,
  -- that it answered with a response.
  pub data Genuine (limiter : W) (s : State o) (src : SocketAddr) (datagram : List ℕ) (k : ℕ)
      : Result Packet TunnResult → Type 0 where
    by_data :
        (index : ℕ)
        → index / 256 ≡ k
        → Answered o limiter s src datagram k IsOpened
        → Genuine limiter s src datagram k (Result.ok (Packet.packet_data index))
    by_response :
        (index : ℕ)
        → index / 256 ≡ k
        → Answered o limiter s src datagram k IsReply
        → Genuine limiter s src datagram k (Result.ok (Packet.handshake_response index))
    by_initiation :
        (init public : List ℕ)
        → o.engine.parse_handshake_anon s.key.secret s.key.public init ≡ some public
        → lookup public s.by_pubkey ≡ some k
        → Answered o limiter s src datagram k IsResponse
        → Genuine limiter s src datagram k (Result.ok (Packet.handshake_init init))

  settle_init-Moves :
      (id : ℕ) (src : SocketAddr) (outcome : Outcome) (s : State o) (k : ℕ)
      → Moves o src k s (settle_init o id src outcome s).1 ((id ≡ k) × IsResponse outcome)
  unfolding settle_init IsResponse
  settle_init-Moves id src (failed reason) s k = inl (note_for-Keeps o id reason s k)
  settle_init-Moves id src Outcome.done s k = inl (note_for-Keeps o id _ s k)
  settle_init-Moves id src (tunnel packet inner) s k = inl (note_for-Keeps o id _ s k)
  settle_init-Moves id src (network bytes kind) s k = elim (Bool-cases (kind == 2)) [
    | inr e ↦ rw (settle_init, e) (inl refl)
    | inl e ↦
        elim (update-endpoint id k src
          (λ p. record p {
            endpoint = some src;
            stats = record p.stats { handshakes = p.stats.handshakes + 1 };
          })
          s.peers (λ p. refl)) [
            | inl stays ↦ rw (settle_init, e) (inl stays)
            | inr (here, moved) ↦ rw (settle_init, e) (inr (moved, (here, refl)))
          ]
  ]

  decapsulate-unknown :
      (id : ℕ) (src : SocketAddr) (datagram : List ℕ) (s : State o)
      → lookup id s.peers ≡ none
      → (decapsulate o id src datagram s).0 ≡ failed unknown_index
  unfolding decapsulate
  decapsulate-unknown id src datagram s e = rw (decapsulate, e) refl

  -- Only a live peer's session answers with a response.
  live :
      (id : ℕ) (src : SocketAddr) (datagram : List ℕ) (s : State o)
      → IsResponse (decapsulate o id src datagram s).0
      → Answered o s.limiter s src datagram id IsResponse
  unfolding IsResponse
  live id src datagram s response = elim (Option-cases (lookup id s.peers)) [
    | inl e ↦ absurd (subst IsResponse (decapsulate-unknown id src datagram s e) response)
    | inr (peer, e) ↦
        (peer, e, subst IsResponse (decapsulate-outcome o id src datagram s e) response)
  ]

  handshake-Moves :
      (src : SocketAddr) (datagram init : List ℕ) (s : State o) (k : ℕ)
      → Moves o src k s
          (handshake o src datagram init s).1
          (Genuine s.limiter s src datagram k (Result.ok (Packet.handshake_init init)))
  unfolding handshake note
  handshake-Moves src datagram init s k =
      elim (Option-cases (o.engine.parse_handshake_anon s.key.secret s.key.public init)) [
        | inl e ↦ rw (handshake, e) (inl refl)
        | inr (public, e) ↦ elim (Option-cases (lookup public s.by_pubkey)) [
          | inl f ↦ rw (handshake, e, f) (inl refl)
          | inr (id, f) ↦
              let (outcome, s') = decapsulate o id src datagram s in
              rw (handshake, e, f)
                (elim (settle_init-Moves id src outcome s' k) [
                  | inl stays ↦ inl (stays ∙ decapsulate-Keeps o id src datagram s k)
                  | inr (moved, (here, response)) ↦ inr (
                    moved,
                    by_initiation init public e (f ∙ ap some here) (
                        subst (λ j. Answered o s.limiter s src datagram j IsResponse) here
                          (live id src datagram s response)),
                  )
                ])
        ]
      ]

  -- The limiters and the counters are of no account to it.
  entered : W → HandshakeBuckets IpAddr → ResponderSnapshot → State o → State o
  entered limiter buckets counters s = record s {
    limiter = limiter;
    per_source = buckets;
    counters = counters;
  }

  entered-Genuine :
      (limiter l : W) (b : HandshakeBuckets IpAddr) (c : ResponderSnapshot) (s : State o)
      (src : SocketAddr) (datagram : List ℕ) (k : ℕ) (verified : Result Packet TunnResult)
      → Genuine limiter (entered l b c s) src datagram k verified
      → Genuine limiter s src datagram k verified
  unfolding entered
  entered-Genuine limiter l b c s src datagram k _ (by_data index here h) = by_data index here h
  entered-Genuine limiter l b c s src datagram k _ (by_response index here h) =
      by_response index here h
  entered-Genuine limiter l b c s src datagram k _ (by_initiation init public e f h) =
      by_initiation init public e f h

  weaken : {A B P Q : Type 0} → (P → Q) → A ⊎ (B × P) → A ⊎ (B × Q)
  weaken f (inl stays) = inl stays
  weaken f (inr (moved, p)) = inr (moved, f p)

  -- Both ends of a test.
  tested :
      (M : State o → Type 0) (b : Bool) (r : Checked Inbound) (t : State o)
      (answer : Checked Inbound × State o)
      → M t
      → M answer.1
      → M (if not b then (r, t) else answer).1
  tested M true r t answer h h' = h'
  tested M false r t answer h h' = h

  initiation-Moves :
      (src : SocketAddr) (datagram init : List ℕ) (now : ℕ) (s : State o) (k : ℕ)
      → Moves o src k s
          (initiation o src datagram init now s).1
          (Genuine s.limiter s src datagram k (Result.ok (Packet.handshake_init init)))
  unfolding initiation note entered
  initiation-Moves src datagram init now s k =
      let buckets = (admit s.per_source src.ip now).1 in
      let M : State o → Type 0 = λ t.
        Moves o src k s t
          (Genuine s.limiter s src datagram k (Result.ok (Packet.handshake_init init))) in
      tested M s.gate.is_open _ _ _ (inl refl) (
        tested M (admit s.per_source src.ip now).0 _ _ _ (inl refl) (
          weaken (entered-Genuine s.limiter s.limiter buckets s.counters s src datagram k _)
            (handshake-Moves src datagram init (entered s.limiter buckets s.counters s) k)))

  dispatch-Moves :
      (src : SocketAddr) (datagram : List ℕ) (packet : Packet) (now : ℕ) (s : State o) (k : ℕ)
      → Moves o src k s
          (dispatch o src datagram packet now s).1
          (Genuine s.limiter s src datagram k (Result.ok packet))
  unfolding dispatch
  dispatch-Moves src datagram (Packet.handshake_init init) now s k =
      initiation-Moves src datagram init now s k
  dispatch-Moves src datagram (Packet.handshake_response index) now s k =
      weaken (λ (here, (peer, e, h)). by_response index here (peer, e, roams_response _ h))
        (demux-Moves o src datagram index 2 now s k)
  dispatch-Moves src datagram (Packet.packet_cookie_reply index) now s k =
      weaken (λ (here, (peer, e, h)). absurd (roams_cookie _ h))
        (demux-Moves o src datagram index 3 now s k)
  dispatch-Moves src datagram (Packet.packet_data index) now s k =
      weaken (λ (here, (peer, e, h)). by_data index here (peer, e, roams_data _ h))
        (demux-Moves o src datagram index 4 now s k)

  answer_verified-Moves :
      (src : SocketAddr) (datagram : List ℕ) (now : ℕ) (verified : Result Packet TunnResult)
      (s : State o) (k : ℕ)
      → Moves o src k s
          (answer_verified o src datagram now verified s).1
          (Genuine s.limiter s src datagram k verified)
  unfolding answer_verified note
  answer_verified-Moves src datagram now (Result.ok packet) s k =
      dispatch-Moves src datagram packet now s k
  answer_verified-Moves src datagram now (Result.err (TunnResult.write_to_network bytes)) s k =
      inl refl
  answer_verified-Moves src datagram now (Result.err TunnResult.done) s k = inl refl
  answer_verified-Moves src datagram now (Result.err (TunnResult.err e)) s k = inl refl
  answer_verified-Moves src datagram now (Result.err (TunnResult.write_to_tunnel_v4 b a)) s k =
      inl refl
  answer_verified-Moves src datagram now (Result.err (TunnResult.write_to_tunnel_v6 b a)) s k =
      inl refl

  datagram-Moves :
      (src : SocketAddr) (datagram : List ℕ) (now : ℕ) (s : State o) (k : ℕ)
      → Moves o src k s (handle_datagram o src datagram now s).1 (
          Genuine
            (o.engine.verify_packet s.limiter src.ip datagram).1
            s
            src
            datagram
            k
            (o.engine.verify_packet s.limiter src.ip datagram).0)
  unfolding handle_datagram note entered
  datagram-Moves src datagram now s k = elim (Bool-cases (ltb 65535 (length datagram))) [
    | inl long ↦ rw (handle_datagram, long) (inl refl)
    | inr short ↦
        let (verified, limiter) = o.engine.verify_packet s.limiter src.ip datagram in
        let c = Counters.datagram s.counters in
        rw (handle_datagram, short)
          (weaken (entered-Genuine limiter limiter s.per_source c s src datagram k verified)
            (answer_verified-Moves src datagram now verified (entered limiter s.per_source c s) k))
  ]

  -- A datagram leaves the endpoint of every peer as it was, but for one peer whose session answered it:
  -- a packet of data that it opened, a response that it did not answer with a cookie, or an initiation
  -- by that peer's key that it answered with a response. The endpoint is then the datagram's source.
  pub handle_datagram-Moves :
      (src : SocketAddr) (datagram : List ℕ) (now : ℕ) (s : State o) (k : ℕ)
      → (endpoint o k (handle_datagram o src datagram now s).1 ≡ endpoint o k s)
        ⊎ ((endpoint o k (handle_datagram o src datagram now s).1 ≡ some src)
            × Genuine
                (o.engine.verify_packet s.limiter src.ip datagram).1
                s
                src
                datagram
                k
                (o.engine.verify_packet s.limiter src.ip datagram).0)
  handle_datagram-Moves src datagram now s k = elim (datagram-Moves src datagram now s k) [
    | inl stays ↦ inl (endpoint_lem o k _ ∙ stays ∙ sym (endpoint_lem o k s))
    | inr (moved, genuine) ↦ inr (endpoint_lem o k _ ∙ moved, genuine)
  ]
