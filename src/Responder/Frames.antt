-- ===== src/Responder/Frames.antt =====
-- crates/warren-bolthole-core/src/responder.rs: what the engine's call and a roaming peer leave alone.
use warren_sdk_rs.Prelude.{ℕ, ◌≡◌, refl, inl, inr, some, List, Bool-cases, Option-cases}
use warren_sdk_rs.Prelude.Map.{nat_eq, lookup}
use warren_sdk_rs.Prelude.Ordered.{lookup-update_self}
use warren_sdk_rs.Ip.{SocketAddr}
use warren_sdk_rs.Responder.Types.{Crates, Peer, Outcome}
use warren_sdk_rs.Responder.Sessions.{State, summarize, decapsulate}
use warren_sdk_rs.Responder.Verdict.Decided.{policy}
use warren_sdk_rs.Responder.Datagram.{roams, roam}

module _ {W T N4 N6 R : Type 0} (o : Crates W T N4 N6 R) where
  pub decapsulate-gate :
      (id : ℕ) (src : SocketAddr) (datagram : List ℕ) (s : State o)
      → (decapsulate o id src datagram s).1.gate ≡ s.gate
  unfolding decapsulate
  decapsulate-gate id src datagram s = elim (Option-cases (lookup id s.peers)) [
    | inl e ↦ rw (decapsulate, e) refl
    | inr (peer, e) ↦ rw (decapsulate, e) refl
  ]

  pub roam-gate :
      (id : ℕ) (src : SocketAddr) (kind : ℕ) (outcome : Outcome) (s : State o)
      → (roam o id src kind outcome s).gate ≡ s.gate
  unfolding roam
  roam-gate id src kind outcome s = elim (Bool-cases (roams kind outcome)) [
    | inl e ↦ rw (roam, e) refl
    | inr e ↦ rw (roam, e) refl
  ]

  pub decapsulate-policy :
      (id : ℕ) (src : SocketAddr) (datagram : List ℕ) (s : State o)
      → policy (decapsulate o id src datagram s).1 ≡ policy s
  unfolding decapsulate
  decapsulate-policy id src datagram s = elim (Option-cases (lookup id s.peers)) [
    | inl e ↦ rw (decapsulate, e) refl
    | inr (peer, e) ↦ rw (decapsulate, e) refl
  ]

  pub roam-policy :
      (id : ℕ) (src : SocketAddr) (kind : ℕ) (outcome : Outcome) (s : State o)
      → policy (roam o id src kind outcome s) ≡ policy s
  unfolding roam
  roam-policy id src kind outcome s = elim (Bool-cases (roams kind outcome)) [
    | inl e ↦ rw (roam, e) refl
    | inr e ↦ rw (roam, e) refl
  ]

  -- A peer with the same networks stands under the identifier.
  unfoldable pub Stays : ℕ → Peer T N4 N6 → State o → Type 0
  Stays id peer s = (p : Peer T N4 N6) × (lookup id s.peers ≡ some p) × (p.allowed ≡ peer.allowed)

  pub decapsulate-Stays :
      (id : ℕ) (src : SocketAddr) (datagram : List ℕ) (s : State o) {peer : Peer T N4 N6}
      → lookup id s.peers ≡ some peer
      → Stays id peer (decapsulate o id src datagram s).1
  unfolding decapsulate Stays
  decapsulate-Stays id src datagram s e =
      rw (decapsulate, e) (_, lookup-update_self id _ s.peers e, refl)

  pub roam-Stays :
      (id : ℕ) (src : SocketAddr) (kind : ℕ) (outcome : Outcome) (s : State o) (peer : Peer T N4 N6)
      → Stays id peer s
      → Stays id peer (roam o id src kind outcome s)
  unfolding roam Stays
  roam-Stays id src kind outcome s peer (p, e, a) = elim (Bool-cases (roams kind outcome)) [
    | inl f ↦ rw (roam, f) (_, lookup-update_self id _ s.peers e, a)
    | inr f ↦ rw (roam, f) (p, e, a)
  ]

  -- What the engine answers for a live peer.
  pub decapsulate-outcome :
      (id : ℕ) (src : SocketAddr) (datagram : List ℕ) (s : State o) {peer : Peer T N4 N6}
      → lookup id s.peers ≡ some peer
      → (decapsulate o id src datagram s).0
        ≡ summarize (o.engine.decapsulate s.limiter peer.tunn (some src.ip) datagram).0
  unfolding decapsulate
  decapsulate-outcome id src datagram s e = rw (decapsulate, e) refl
