-- ===== src/Responder/Judged.antt =====
-- crates/warren-bolthole-core/src/responder.rs: what a decrypted packet becomes, by `receive`.
use warren_sdk_rs.Prelude.{
  ℕ, ◌≡◌, refl, subst, inl, inr, Bool, true, false, not, Option, none, some, List, Bool-cases,
  Option-cases, if◌then◌else◌,
}
use warren_sdk_rs.Prelude.Map.{nat_eq, list_eq, lookup}
use warren_sdk_rs.Bytes.{Checked, ok, err, panic, PacketError}
use warren_sdk_rs.Napt.Types.{addr_eq}
use warren_sdk_rs.Plan.{Addr}
use warren_sdk_rs.Responder.Counters.{DropReason}
use warren_sdk_rs.Responder.Types.{
  Crates, Inbound, uplink, reply, loopback, consumed, dropped, Peer, Answer, Verdict,
}
use warren_sdk_rs.Responder.Sessions.{State, encapsulate_into}
use warren_sdk_rs.Responder.Verdict.{owns, verdict}
use warren_sdk_rs.Responder.Verdict.Decided.{Public, Neighbour, policy, Decided, verdict-Decided}
use warren_sdk_rs.Responder.Deliver.{send_answer, give_answer, deliver}
use warren_sdk_rs.Responder.Datagram.{receive}

module _ {W T N4 N6 R : Type 0} (o : Crates W T N4 N6 R) where
  -- An answer that lets no packet of a peer through.
  pub data Kept : Checked Inbound → Type 0 where
    replied : (bytes : List ℕ) → Kept (ok (reply bytes))
    absorbed : Kept (ok consumed)
    refused : (reason : DropReason) → Kept (ok (dropped reason))
    erred : (e : PacketError) → Kept (err e)
    panicked : Kept panic

  send_answer-Kept :
      (id : ℕ) (built : Checked (Option (List ℕ))) (s : State o) → Kept (send_answer o id built s).0
  unfolding send_answer
  send_answer-Kept id panic s = panicked
  send_answer-Kept id (err e) s = erred e
  send_answer-Kept id (ok none) s = absorbed
  send_answer-Kept id (ok (some packet)) s =
      elim (Option-cases (encapsulate_into o id packet s).0) [
        | inl e ↦ rw (send_answer, e) absorbed
        | inr (bytes, e) ↦ rw (send_answer, e) (replied bytes)
      ]

  within :
      (admitted : Bool) (suppressed : State o) (answered : Checked Inbound × State o)
      → Kept answered.0
      → Kept (if not admitted then (ok consumed, suppressed) else answered).0
  within true suppressed answered k = k
  within false suppressed answered k = absorbed

  give_answer-Kept :
      (id : ℕ) (packet : List ℕ) (reason : Answer) (now : ℕ) (s : State o)
      → Kept (give_answer o id packet reason now s).0
  unfolding give_answer
  give_answer-Kept id packet reason now s = within _ _ _ (send_answer-Kept id _ _)

  -- The peer is live, it owns the inner source, and the gate is open.
  pub record Admitted (s : State o) (id : ℕ) (inner : Addr) : Type 0 where
    pub peer : Peer T N4 N6
    pub known : lookup id s.peers ≡ some peer
    pub owned : owns o peer inner ≡ true
    pub is_open : s.gate.is_open ≡ true

  -- What a decrypted packet becomes.
  pub data Judged (s : State o) (id : ℕ) (packet : List ℕ) (inner : Addr)
      : Checked Inbound → Type 0 where
    uplinked :
        Admitted s id inner
        → Public o (policy s) packet
        → Judged s id packet inner (ok (uplink id packet))
    crossed :
        (to : ℕ)
        → Admitted s id inner
        → Neighbour o (policy s) packet to
        → Judged s id packet inner (ok (loopback to packet))
    kept : {r : Checked Inbound} → Kept r → Judged s id packet inner r

  deliver-Judged :
      (id : ℕ) (packet : List ℕ) (inner : Addr) (now : ℕ) (s t : State o)
      → policy t ≡ policy s
      → Admitted s id inner
      → Judged s id packet inner (deliver o id packet now t).0
  unfolding deliver
  deliver-Judged id packet inner now s t same a =
      by_verdict (verdict o t packet) refl
        (subst (λ p. Decided o p packet (verdict o t packet)) same (verdict-Decided o t packet))
    where
      by_verdict :
          (v : Checked Verdict)
          → verdict o t packet ≡ v
          → Decided o (policy s) packet v
          → Judged s id packet inner (deliver o id packet now t).0
      by_verdict _ e (Decided.forwarded public) = rw (deliver, e) (uplinked a public)
      by_verdict _ e (Decided.crossed to near) = rw (deliver, e) (crossed to a near)
      by_verdict _ e (Decided.answered reason) =
          rw (deliver, e) (kept (give_answer-Kept id packet reason now t))
      by_verdict _ e (Decided.refused reason) = rw (deliver, e) (kept (refused reason))
      by_verdict _ e (Decided.failed x) = rw (deliver, e) (kept (erred x))
      by_verdict _ e Decided.panicked = rw (deliver, e) (kept panicked)

  gated :
      (s : State o) (id : ℕ) (packet : List ℕ) (inner : Addr) (reason : DropReason)
      (unlocked : Bool) (t : State o) (answer : Checked Inbound × State o)
      → (unlocked ≡ true → Judged s id packet inner answer.0)
      → Judged s id packet inner (if not unlocked then (ok (dropped reason), t) else answer).0
  gated s id packet inner reason true t answer make = make refl
  gated s id packet inner reason false t answer make = kept (refused reason)

  pub receive-Judged :
      (id : ℕ) (packet : List ℕ) (inner : Addr) (now : ℕ) (s : State o)
      → Judged s id packet inner (receive o id packet inner now s).0
  unfolding receive
  receive-Judged id packet inner now s = elim (Option-cases (lookup id s.peers)) [
    | inl e ↦ rw (receive, e) (kept (refused _))
    | inr (peer, e) ↦ elim (Bool-cases (owns o peer inner)) [
      | inr other ↦ rw (receive, e, other) (kept (refused _))
      | inl own ↦
          rw (receive, e, own)
            (gated s id packet inner _ s.gate.is_open _ _ (λ unlocked.
              deliver-Judged id packet inner now s _ refl
                (record { peer = peer; known = e; owned = own; is_open = unlocked })))
    ]
  ]
