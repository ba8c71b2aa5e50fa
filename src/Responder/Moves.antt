-- ===== src/Responder/Moves.antt =====
-- crates/warren-bolthole-core/src/responder.rs: the endpoints that `demux` moves.
use warren_sdk_rs.Prelude.{
  ℕ, ◌/◌, ◌≡◌, ◌⊎◌, refl, sym, ◌∙◌, ap, subst, inl, inr, true, false, Option, some, List,
  Bool-cases, Option-cases, ◌==◌, ==_iff, arith,
}
use warren_sdk_rs.Prelude.Map.{nat_eq, list_eq, lookup}
use warren_sdk_rs.Prelude.Ordered.{update, lookup-update}
use warren_sdk_rs.Ip.{SocketAddr}
use warren_sdk_rs.Napt.Types.{addr_eq}
use warren_sdk_rs.Responder.Types.{Crates, Peer, Outcome, network, tunnel, failed}
use warren_sdk_rs.Responder.Sessions.{State, summarize, note, decapsulate}
use warren_sdk_rs.Responder.Datagram.{roams, roam, demux}
use warren_sdk_rs.Responder.Frames.{decapsulate-outcome}
use warren_sdk_rs.Responder.Endpoints.{endpoint_of, decapsulate-Keeps, settle-Keeps}

module _ {T N4 N6 : Type 0} where
  -- An update that sets the endpoint: the peer's own moves, every other stays.
  pub update-endpoint :
      (id k : ℕ) (to : SocketAddr) (f : Peer T N4 N6 → Peer T N4 N6) (m : List (ℕ × Peer T N4 N6))
      → ((p : Peer T N4 N6) → (f p).endpoint ≡ some to)
      → (endpoint_of (lookup k (update id f m)) ≡ endpoint_of (lookup k m))
        ⊎ ((id ≡ k) × (endpoint_of (lookup k (update id f m)) ≡ some to))
  update-endpoint id k to f m h = elim (Bool-cases (id == k)) [
    | inr e ↦ inl (ap endpoint_of (lookup-update id k f m) ∙ rw e refl)
    | inl e ↦ elim (Option-cases (lookup k m)) [
      | inl a ↦ inl (ap endpoint_of (lookup-update id k f m) ∙ rw (e, a) refl)
      | inr (p, a) ↦
          inr ((==_iff id k).0 e, ap endpoint_of (lookup-update id k f m) ∙ rw (e, a) (h p))
    ]
  ]

unfoldable pub IsOpened : Outcome → Type 0
IsOpened (failed reason) = ⊥
IsOpened _ = Unit {0}

unfoldable pub IsReply : Outcome → Type 0
IsReply (network bytes kind) = (kind == 3) ≡ false
IsReply _ = ⊥

unfoldable pub IsResponse : Outcome → Type 0
IsResponse (network bytes kind) = (kind == 2) ≡ true
IsResponse _ = ⊥

pub roams_data : (outcome : Outcome) → roams 4 outcome ≡ true → IsOpened outcome
unfolding roams IsOpened
roams_data (failed reason) h = absurd (ground (arith, h))
roams_data (network bytes kind) h = tt
roams_data (tunnel packet inner) h = tt
roams_data Outcome.done h = tt

pub roams_response : (outcome : Outcome) → roams 2 outcome ≡ true → IsReply outcome
unfolding roams IsReply
roams_response (failed reason) h = absurd (ground (arith, h))
roams_response (network bytes kind) h = ground (arith, h)
roams_response (tunnel packet inner) h = absurd (ground (arith, h))
roams_response Outcome.done h = absurd (ground (arith, h))

pub roams_cookie : (outcome : Outcome) → roams 3 outcome ≡ true → ⊥
unfolding roams
roams_cookie (failed reason) h = ground (arith, h)
roams_cookie (network bytes kind) h = ground (arith, h)
roams_cookie (tunnel packet inner) h = ground (arith, h)
roams_cookie Outcome.done h = ground (arith, h)

module _ {W T N4 N6 R : Type 0} (o : Crates W T N4 N6 R) where
  abbrev pub at : ℕ → State o → Option SocketAddr
  at k s = endpoint_of (lookup k s.peers)

  -- The endpoint stays, or it moves to the source and `P` holds.
  abbrev pub Moves : SocketAddr → ℕ → State o → State o → Type 0 → Type 0
  Moves src k s t P = (at k t ≡ at k s) ⊎ ((at k t ≡ some src) × P)

  roam-Moves :
      (id : ℕ) (src : SocketAddr) (kind : ℕ) (outcome : Outcome) (s : State o) (k : ℕ)
      → Moves src k s (roam o id src kind outcome s) ((id ≡ k) × (roams kind outcome ≡ true))
  unfolding roam
  roam-Moves id src kind outcome s k = elim (Bool-cases (roams kind outcome)) [
    | inr e ↦ rw (roam, e) (inl refl)
    | inl e ↦
        elim (update-endpoint id k src (λ p. record p { endpoint = some src }) s.peers
          (λ p. refl)) [
            | inl stays ↦ rw (roam, e) (inl stays)
            | inr (here, moved) ↦ rw (roam, e) (inr (moved, (here, refl)))
          ]
  ]

  -- The peer's session answered the datagram, and let its endpoint move.
  abbrev pub Answered : W → State o → SocketAddr → List ℕ → ℕ → (Outcome → Type 0) → Type 0
  Answered limiter s src datagram k P =
      (peer : Peer T N4 N6) × (lookup k s.peers ≡ some peer)
      × P (summarize (o.engine.decapsulate limiter peer.tunn (some src.ip) datagram).0)

  pub demux-Moves :
      (src : SocketAddr) (datagram : List ℕ) (index kind now : ℕ) (s : State o) (k : ℕ)
      → Moves src k s (demux o src datagram index kind now s).1 (
          (index / 256 ≡ k)
          × Answered s.limiter s src datagram k (λ outcome. roams kind outcome ≡ true))
  unfolding demux note
  demux-Moves src datagram index kind now s k =
      let id = index / 256 in
      let (outcome, s') = decapsulate o id src datagram s in
      let t = roam o id src kind outcome s' in
      elim (Option-cases (lookup id s.peers)) [
        | inl e ↦ rw (demux, e) (inl refl)
        | inr (peer, e) ↦ elim (roam-Moves id src kind outcome s' k) [
          | inl stays ↦
              rw (demux, e)
                (inl (
                  settle-Keeps o id outcome now t k
                  ∙ stays
                  ∙ decapsulate-Keeps o id src datagram s k))
          | inr (moved, (here, roaming)) ↦
              rw (demux, e)
                (inr (
                  settle-Keeps o id outcome now t k ∙ moved,
                  (
                    here,
                    (
                      peer,
                      subst (λ j. lookup j s.peers ≡ some peer) here e,
                      ap (roams kind) (sym (decapsulate-outcome o id src datagram s e)) ∙ roaming,
                    ),
                  ),
                ))
        ]
      ]
