-- ===== src/Responder/Endpoints.antt =====
-- crates/warren-bolthole-core/src/responder.rs: the methods that leave every peer's endpoint alone.
use warren_sdk_rs.Prelude.{
  ℕ, ◌≡◌, refl, ◌∙◌, ap, inl, inr, Bool, true, false, not, Option, none, some, List, Bool-cases,
  Option-cases, ◌==◌, if◌then◌else◌, length,
}
use warren_sdk_rs.Prelude.Map.{nat_eq, lookup}
use warren_sdk_rs.Prelude.Ordered.{mapped, lookup-update}
use warren_sdk_rs.Bytes.{Checked, ok, err, panic}
use warren_sdk_rs.Ip.{SocketAddr}
use warren_sdk_rs.Plan.{Addr}
use warren_sdk_rs.Responder.Counters.{DropReason}
use warren_sdk_rs.Responder.Types.{
  TunnResult, Crates, Inbound, Peer, Outcome, network, tunnel, failed, Answer, echo, unreachable,
  no_route_v6, Verdict,
}
use warren_sdk_rs.Responder.Sessions.{
  first_byte, State, with_peer, note, note_for, decapsulate, account, encapsulate_into,
}
use warren_sdk_rs.Responder.Verdict.{owns, verdict}
use warren_sdk_rs.Responder.Deliver.{counted, send_answer, give_answer, deliver}
use warren_sdk_rs.Responder.Datagram.{receive, settle}
use warren_sdk_rs.Responder.Views.{endpoint}

module _ {T N4 N6 : Type 0} where
  abbrev pub endpoint_of : Option (Peer T N4 N6) → Option SocketAddr
  endpoint_of none = none
  endpoint_of (some peer) = peer.endpoint

  mapped_endpoint :
      (b : Bool) (f : Peer T N4 N6 → Peer T N4 N6) (found : Option (Peer T N4 N6))
      → ((p : Peer T N4 N6) → (f p).endpoint ≡ p.endpoint)
      → endpoint_of (if b then mapped f found else found) ≡ endpoint_of found
  mapped_endpoint true f none h = refl
  mapped_endpoint true f (some p) h = h p
  mapped_endpoint false f found h = refl

module _ {W T N4 N6 R : Type 0} (o : Crates W T N4 N6 R) where
  pub endpoint_lem : (k : ℕ) (s : State o) → endpoint o k s ≡ endpoint_of (lookup k s.peers)
  unfolding endpoint
  endpoint_lem k s = elim (Option-cases (lookup k s.peers)) [
    | inl e ↦ rw (endpoint, e) refl
    | inr (p, e) ↦ rw (endpoint, e) refl
  ]

  abbrev pub Keeps : State o → State o → Type 0
  Keeps s t = (k : ℕ) → endpoint_of (lookup k t.peers) ≡ endpoint_of (lookup k s.peers)

  pub with_peer-Keeps :
      (id : ℕ) (f : Peer T N4 N6 → Peer T N4 N6) (s : State o)
      → ((p : Peer T N4 N6) → (f p).endpoint ≡ p.endpoint)
      → Keeps s (with_peer o id f s)
  with_peer-Keeps id f s h k =
      ap endpoint_of (lookup-update id k f s.peers)
      ∙ mapped_endpoint (id == k) f (lookup k s.peers) h

  pub note_for-Keeps :
      (id : ℕ) (reason : DropReason) (s : State o) → Keeps s (note_for o id reason s)
  unfolding note_for note
  note_for-Keeps id reason s = with_peer-Keeps id _ s (λ p. refl)

  pub decapsulate-Keeps :
      (id : ℕ) (src : SocketAddr) (datagram : List ℕ) (s : State o)
      → Keeps s (decapsulate o id src datagram s).1
  unfolding decapsulate
  decapsulate-Keeps id src datagram s k = elim (Option-cases (lookup id s.peers)) [
    | inl e ↦ rw (decapsulate, e) refl
    | inr (peer, e) ↦ rw (decapsulate, e) (with_peer-Keeps id _ s (λ p. refl) k)
  ]

  account-Keeps :
      (id size : ℕ) (result : TunnResult) (s : State o) → Keeps s (account o id size result s).1
  unfolding account
  account-Keeps id size (TunnResult.write_to_network bytes) s k =
      elim (Bool-cases (first_byte bytes == 4)) [
        | inl e ↦ rw (account, e) (with_peer-Keeps id _ s (λ p. refl) k)
        | inr e ↦ rw (account, e) refl
      ]
  account-Keeps id size TunnResult.done s k = refl
  account-Keeps id size (TunnResult.err e) s k = refl
  account-Keeps id size (TunnResult.write_to_tunnel_v4 bytes a) s k = refl
  account-Keeps id size (TunnResult.write_to_tunnel_v6 bytes a) s k = refl

  encapsulate_into-Keeps :
      (id : ℕ) (packet : List ℕ) (s : State o) → Keeps s (encapsulate_into o id packet s).1
  unfolding encapsulate_into
  encapsulate_into-Keeps id packet s k = elim (Option-cases (lookup id s.peers)) [
    | inl e ↦ rw (encapsulate_into, e) refl
    | inr (peer, e) ↦
        rw (encapsulate_into, e)
          (account-Keeps id (length packet) _ _ k ∙ with_peer-Keeps id _ s (λ p. refl) k)
  ]

  send_answer-Keeps :
      (id : ℕ) (built : Checked (Option (List ℕ))) (s : State o)
      → Keeps s (send_answer o id built s).1
  unfolding send_answer
  send_answer-Keeps id panic s k = refl
  send_answer-Keeps id (err e) s k = refl
  send_answer-Keeps id (ok none) s k = refl
  send_answer-Keeps id (ok (some packet)) s k =
      elim (Option-cases (encapsulate_into o id packet s).0) [
        | inl e ↦ rw (send_answer, e) (encapsulate_into-Keeps id packet s k)
        | inr (bytes, e) ↦ rw (send_answer, e) (encapsulate_into-Keeps id packet s k)
      ]

  within :
      (s : State o) (admitted : Bool) (suppressed : State o) (answered : Checked Inbound × State o)
      (inbound : Checked Inbound)
      → Keeps s suppressed
      → Keeps s answered.1
      → Keeps s (if not admitted then (inbound, suppressed) else answered).1
  within s true suppressed answered inbound h h' = h'
  within s false suppressed answered inbound h h' = h

  give_answer-Keeps :
      (id : ℕ) (packet : List ℕ) (reason : Answer) (now : ℕ) (s : State o)
      → Keeps s (give_answer o id packet reason now s).1
  unfolding give_answer counted
  give_answer-Keeps id packet echo now s = within s _ _ _ _ (λ k. refl) (send_answer-Keeps id _ _)
  give_answer-Keeps id packet unreachable now s =
      within s _ _ _ _ (λ k. refl) (send_answer-Keeps id _ _)
  give_answer-Keeps id packet (no_route_v6 reason) now s =
      within s _ _ _ _ (λ k. refl) (send_answer-Keeps id _ _)

  deliver-Keeps :
      (id : ℕ) (packet : List ℕ) (now : ℕ) (s : State o) → Keeps s (deliver o id packet now s).1
  unfolding deliver
  deliver-Keeps id packet now s = by_verdict (verdict o s packet) refl
    where
      by_verdict :
          (v : Checked Verdict) → verdict o s packet ≡ v → Keeps s (deliver o id packet now s).1
      by_verdict panic e k = rw (deliver, e) refl
      by_verdict (err x) e k = rw (deliver, e) refl
      by_verdict (ok Verdict.forward) e k = rw (deliver, e) refl
      by_verdict (ok (Verdict.loopback to)) e k = rw (deliver, e) refl
      by_verdict (ok (Verdict.answer reason)) e k =
          rw (deliver, e) (give_answer-Keeps id packet reason now s k)
      by_verdict (ok (Verdict.drop reason)) e k = rw (deliver, e) (note_for-Keeps id reason s k)

  receive-Keeps :
      (id : ℕ) (packet : List ℕ) (inner : Addr) (now : ℕ) (s : State o)
      → Keeps s (receive o id packet inner now s).1
  unfolding receive note
  receive-Keeps id packet inner now s k = elim (Option-cases (lookup id s.peers)) [
    | inl e ↦ rw (receive, e) refl
    | inr (peer, e) ↦ elim (Bool-cases (owns o peer inner)) [
      | inr other ↦ rw (receive, e, other) (note_for-Keeps id _ s k)
      | inl own ↦
          rw (receive, e, own)
            (within s s.gate.is_open _ _ _ (note_for-Keeps id _ s)
              (λ j. deliver-Keeps id packet now _ j ∙ with_peer-Keeps id _ s (λ p. refl) j) k)
    ]
  ]

  pub settle-Keeps :
      (id : ℕ) (outcome : Outcome) (now : ℕ) (s : State o) → Keeps s (settle o id outcome now s).1
  unfolding settle
  settle-Keeps id (failed reason) now s = note_for-Keeps id reason s
  settle-Keeps id Outcome.done now s = λ k. refl
  settle-Keeps id (network bytes kind) now s =
      within s s.gate.is_open _ _ _ (note_for-Keeps id _ s) (λ k. refl)
  settle-Keeps id (tunnel packet inner) now s = receive-Keeps id packet inner now s
