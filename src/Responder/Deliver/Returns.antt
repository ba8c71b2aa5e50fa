-- ===== src/Responder/Deliver/Returns.antt =====
-- crates/warren-bolthole-core/src/responder.rs: `deliver` does not panic.
use warren_sdk_rs.Prelude.{
  ℕ, ◌≤◌, ◌≡◌, refl, sym, ◌∙◌, inl, inr, Bool, true, false, not, Option, none, some, List,
  Bool-cases, Option-cases, length, arith, if◌then◌else◌,
}
use warren_sdk_rs.Prelude.Map.{nat_eq, list_eq}
use warren_sdk_rs.Bytes.{Checked, ok, err, panic}
use warren_sdk_rs.Bytes.Laws.{
  index-byte, Returns, value, error, Returns-panic, then-Returns, if-Returns,
}
use warren_sdk_rs.Ip.{parse_ip, read_icmp, read_ports}
use warren_sdk_rs.Napt.Types.{addr_eq}
use warren_sdk_rs.Icmp.Build.Returns.{
  parse_ip-Returns, read_icmp-Returns, read_ports-Returns, build_unreachable_v4-Returns,
  build_echo_reply_v4-Returns,
}
use warren_sdk_rs.Icmp.Build.V6.Returns.{build_unreachable_v6-Returns, build_echo_reply_v6-Returns}
use warren_sdk_rs.Plan.{Addr}
use warren_sdk_rs.Plan.Peers.{PeerPlan, contains, is_gateway, is_tunnel_pool, is_tunnel_gateway}
use warren_sdk_rs.Responder.Counters.{malformed}
use warren_sdk_rs.Responder.Types.{Crates, Inbound, Answer, echo, unreachable, no_route_v6, Verdict}
use warren_sdk_rs.Responder.Sessions.{State, encapsulate_into}
use warren_sdk_rs.Responder.Verdict.{
  is_unicast, is_private, is_echo_request, is_resolver_port, or_false, outside_verdict,
  address_verdict, verdict,
}
use warren_sdk_rs.Responder.Deliver.{build_answer, send_answer, give_answer, deliver}

or_false-Returns :
    {A : Type 0} (m : Checked A) (f : A → Checked Bool)
    → Returns m
    → ((a : A) → Returns (f a))
    → Returns (or_false m f)
or_false-Returns _ f (value a) k = k a
or_false-Returns _ f (error e) k = value false

is_echo_request-Returns : (packet : List ℕ) → Returns (is_echo_request packet)
unfolding is_echo_request
is_echo_request-Returns packet =
    or_false-Returns (parse_ip packet) _ (parse_ip-Returns packet) (λ header.
      or_false-Returns (read_icmp packet header.l4_offset) _
        (read_icmp-Returns packet header.l4_offset) (λ icmp. value _))

is_resolver_port-Returns : (packet : List ℕ) → Returns (is_resolver_port packet)
unfolding is_resolver_port
is_resolver_port-Returns packet =
    or_false-Returns (parse_ip packet) _ (parse_ip-Returns packet) (λ header.
      if-Returns _ (ok false) _ (value false) (
        or_false-Returns (read_ports packet header.l4_offset) _
          (read_ports-Returns packet header.l4_offset) (λ ports. value _)))

module _ {W T N4 N6 R : Type 0} (o : Crates W T N4 N6 R) where
  outside-Returns :
      (s : State o) (packet : List ℕ) (dst : Addr) → Returns (outside_verdict o s packet dst)
  unfolding outside_verdict
  outside-Returns s packet dst = elim (Bool-cases (contains o.ip4 o.ip6 s.plan dst)) [
    | inl peers ↦ rw (outside_verdict, peers) (value _)
    | inr free ↦ elim (Bool-cases (is_tunnel_pool dst)) [
      | inl pool ↦ elim (Bool-cases (is_tunnel_gateway dst)) [
        | inr other ↦ rw (outside_verdict, free, pool, other) (value _)
        | inl resolver ↦
            rw (outside_verdict, free, pool, resolver)
              (then-Returns (is_resolver_port packet) _ (is_resolver_port-Returns packet)
                (λ b. value _))
      ]
      | inr outer ↦ elim (Bool-cases (is_private dst)) [
        | inl private ↦ rw (outside_verdict, free, outer, private) (value _)
        | inr public ↦ rw (outside_verdict, free, outer, public) (value _)
      ]
    ]
  ]

  address-Returns :
      (s : State o) (packet : List ℕ) (dst : Addr) → Returns (address_verdict o s packet dst)
  unfolding address_verdict
  address-Returns s packet dst = elim (Bool-cases (is_unicast dst)) [
    | inr other ↦ rw (address_verdict, other) (value _)
    | inl unicast ↦ elim (Bool-cases (is_gateway o.ip4 o.ip6 s.plan dst)) [
      | inl own ↦
          rw (address_verdict, unicast, own)
            (then-Returns (is_echo_request packet) _ (is_echo_request-Returns packet)
              (λ b. value _))
      | inr other ↦ elim (Option-cases (o.routing.longest_match s.routes dst)) [
        | inl e ↦ rw (address_verdict, unicast, other, e) (outside-Returns s packet dst)
        | inr (route, e) ↦ rw (address_verdict, unicast, other, e) (value _)
      ]
    ]
  ]

  dropped_lem :
      (s : State o) (packet : List ℕ)
      → o.engine.dst_address packet ≡ none
      → verdict o s packet ≡ ok (Verdict.drop malformed)
  unfolding verdict
  dropped_lem s packet e = rw (verdict, e) refl

  module _
      (named : (packet : List ℕ) (dst : Addr)
        → o.engine.dst_address packet ≡ some dst
        → 1 ≤ length packet) where
    -- The verdict, with the packet not empty but where it is dropped.
    verdict_cases :
        (s : State o) (packet : List ℕ)
        → Returns (verdict o s packet)
          × ((reason : Answer)
              → verdict o s packet ≡ ok (Verdict.answer reason)
              → 1 ≤ length packet)
    unfolding verdict
    verdict_cases s packet = elim (Option-cases (o.engine.dst_address packet)) [
      | inl e ↦ (
        rw (verdict, e) (value _),
        λ reason h. absurd (ground (arith, sym h ∙ dropped_lem s packet e)),
      )
      | inr (dst, e) ↦
          (rw (verdict, e) (address-Returns s packet dst), λ reason h. named packet dst e)
    ]

    build_answer-Returns :
        (plan : PeerPlan N4 N6) (packet : List ℕ) (reason : Answer)
        → 1 ≤ length packet
        → Returns (build_answer o plan packet reason)
    unfolding build_answer
    build_answer-Returns plan packet echo h =
        rw (build_answer, index-byte packet 0 h)
          (if-Returns _ _ _ (build_echo_reply_v4-Returns o.checksum packet)
            (build_echo_reply_v6-Returns o.checksum packet))
    build_answer-Returns plan packet unreachable h =
        rw (build_answer, index-byte packet 0 h)
          (if-Returns _ _ _ (build_unreachable_v4-Returns o.checksum packet _)
            (build_unreachable_v6-Returns o.checksum packet _))
    build_answer-Returns plan packet (no_route_v6 reason) h =
        build_unreachable_v6-Returns o.checksum packet _

    send_answer-Returns :
        (id : ℕ) (built : Checked (Option (List ℕ))) (s : State o)
        → Returns built
        → Returns (send_answer o id built s).0
    unfolding send_answer
    send_answer-Returns id _ s (error e) = error e
    send_answer-Returns id _ s (value none) = value _
    send_answer-Returns id _ s (value (some packet)) =
        elim (Option-cases (encapsulate_into o id packet s).0) [
          | inl e ↦ rw (send_answer, e) (value _)
          | inr (bytes, e) ↦ rw (send_answer, e) (value _)
        ]

    pub within :
        (b : Bool) (inbound : Inbound) (t : State o) (answer : Checked Inbound × State o)
        → Returns answer.0
        → Returns (if not b then (ok inbound, t) else answer).0
    within true inbound t answer h = h
    within false inbound t answer h = value inbound

    give_answer-Returns :
        (id : ℕ) (packet : List ℕ) (reason : Answer) (now : ℕ) (s : State o)
        → 1 ≤ length packet
        → Returns (give_answer o id packet reason now s).0
    unfolding give_answer
    give_answer-Returns id packet reason now s h =
        within _ _ _ _ (send_answer-Returns id _ _ (build_answer-Returns _ packet reason h))

    pub deliver-Returns :
        (id : ℕ) (packet : List ℕ) (now : ℕ) (s : State o) → Returns (deliver o id packet now s).0
    unfolding deliver
    deliver-Returns id packet now s =
        by_verdict (verdict o s packet) refl (verdict_cases s packet).0
      where
        by_verdict :
            (v : Checked Verdict)
            → verdict o s packet ≡ v
            → Returns v
            → Returns (deliver o id packet now s).0
        by_verdict (ok Verdict.forward) e h = rw (deliver, e) (value _)
        by_verdict (ok (Verdict.loopback to)) e h = rw (deliver, e) (value _)
        by_verdict (ok (Verdict.answer reason)) e h =
            rw (deliver, e)
              (give_answer-Returns id packet reason now s ((verdict_cases s packet).1 reason e))
        by_verdict (ok (Verdict.drop reason)) e h = rw (deliver, e) (value _)
        by_verdict (err x) e h = rw (deliver, e) (error x)
        by_verdict panic e h = absurd (Returns-panic h)
