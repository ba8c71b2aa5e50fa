-- ===== src/Responder/Deliver.antt =====
-- crates/warren-bolthole-core/src/responder.rs: `deliver`, what becomes of a decrypted packet. `panic`
-- stands for an index out of bounds.
pub mod Returns
use warren_sdk_rs.Prelude.{
  ℕ, zero, suc, ◌/◌, ◌%◌, false, not, Option, none, some, List, [], ◌∷◌, ◌++◌, ◌==◌, if◌then◌else◌,
}
use warren_sdk_rs.Prelude.Map.{nat_eq, list_eq}
use warren_sdk_rs.Bytes.{Checked, ok, err, panic, ◌>>=◌, index}
use warren_sdk_rs.Napt.Types.{addr_eq}
use warren_sdk_rs.Icmp.Build.{build_echo_reply_v4, build_unreachable_v4}
use warren_sdk_rs.Icmp.Build.V6.{build_echo_reply_v6, build_unreachable_v6}
use warren_sdk_rs.Plan.Peers.{PeerPlan, gateway_v4, gateway_v6}
use warren_sdk_rs.RateLimit.TokenBucket.{admit as admit_answer}
use warren_sdk_rs.Responder.Counters as Counters
use warren_sdk_rs.Responder.Counters.{
  DropReason, oversize, malformed, gate_closed, source_rate_limited, unknown_peer, unknown_index,
  auth, replay, spoofed_source, link_local_source, private_destination,
}
use warren_sdk_rs.Responder.Types.{
  Crates, Inbound, uplink, reply, consumed, Answer, echo, unreachable, no_route_v6, Verdict,
}
use warren_sdk_rs.Responder.Sessions.{State, count, note_for, drop_for, encapsulate_into}
use warren_sdk_rs.Responder.Verdict.{verdict}

-- `Answer::counted`.
unfoldable pub counted : Answer → Option DropReason
counted echo = none
counted unreachable = some private_destination
counted (no_route_v6 reason) = some reason

-- The `n` octets of an address.
unfoldable pub octets : ℕ → ℕ → List ℕ
octets zero a = []
octets (suc n) a = octets n (a / 256) ++ (a % 256 ∷ [])

module _ {W T N4 N6 R : Type 0} (o : Crates W T N4 N6 R) where
  -- The message that answers a packet, by the version in its first byte.
  unfoldable pub build_answer : PeerPlan N4 N6 → List ℕ → Answer → Checked (Option (List ℕ))
  unfolding octets
  build_answer plan packet echo = do
    first ← index packet 0
    if first / 16 == 4
        then build_echo_reply_v4 o.checksum packet
        else build_echo_reply_v6 o.checksum packet
  build_answer plan packet unreachable = do
    first ← index packet 0
    if first / 16 == 4
        then build_unreachable_v4 o.checksum packet (octets 4 (gateway_v4 o.ip4 o.ip6 plan))
        else build_unreachable_v6 o.checksum packet (octets 16 (gateway_v6 o.ip4 o.ip6 plan))
  build_answer plan packet (no_route_v6 _) =
      build_unreachable_v6 o.checksum packet (octets 16 (gateway_v6 o.ip4 o.ip6 plan))

  -- The end of an answer: what was built is encapsulated for the peer.
  unfoldable pub send_answer : ℕ → Checked (Option (List ℕ)) → State o → Checked Inbound × State o
  unfolding encapsulate_into
  send_answer id built s = elim built [
    | panic ↦ (panic, s)
    | err e ↦ (err e, s)
    | ok none ↦ (ok consumed, s)
    | ok (some packet) ↦
        let (out, s') = encapsulate_into o id packet s in
        elim out [
          | none ↦ (ok consumed, s')
          | some bytes ↦ (ok (reply bytes), count o (Counters.reply false) s')
        ]
  ]

  -- The arm of `deliver` for an answer: its class is counted, and the budget asked.
  unfoldable pub give_answer : ℕ → List ℕ → Answer → ℕ → State o → Checked Inbound × State o
  unfolding counted build_answer send_answer
  give_answer id packet reason now s =
      let s' : State o = elim (counted reason) [
        | none ↦ s
        | some class ↦ count o (Counters.dropped class) s
      ] in
      let (admitted, answers) = admit_answer s'.answers now in
      let s'' = record s' { answers = answers } in
      if not admitted
      then (ok consumed, count o Counters.answer_suppressed s'')
      else send_answer id (build_answer s''.plan packet reason) s''

  unfoldable pub deliver : ℕ → List ℕ → ℕ → State o → Checked Inbound × State o
  unfolding note_for give_answer
  deliver id packet now s = elim (verdict o s packet) [
    | panic ↦ (panic, s)
    | err e ↦ (err e, s)
    | ok Verdict.forward ↦ (ok (uplink id packet), count o Counters.uplink s)
    | ok (Verdict.loopback to) ↦ (ok (Inbound.loopback to packet), count o Counters.loopback s)
    | ok (Verdict.answer reason) ↦ give_answer id packet reason now s
    | ok (Verdict.drop reason) ↦ drop_for o id reason s
  ]
