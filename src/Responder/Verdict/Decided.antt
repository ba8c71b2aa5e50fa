-- ===== src/Responder/Verdict/Decided.antt =====
-- crates/warren-bolthole-core/src/responder.rs: `verdict`, by the destination of the packet.
use warren_sdk_rs.Prelude.{
  ℕ, ◌≡◌, ◌⊎◌, refl, inl, inr, Bool, true, false, none, some, List, Bool-cases, Option-cases,
  if◌then◌else◌,
}
use warren_sdk_rs.Bytes.{Checked, ok, err, panic, PacketError}
use warren_sdk_rs.Bytes.Laws.{Checked-cases}
use warren_sdk_rs.Plan.{Addr, v4, v6}
use warren_sdk_rs.Plan.Peers.{PeerPlan, contains, is_gateway, is_tunnel_pool, is_tunnel_gateway}
use warren_sdk_rs.Responder.Counters.{DropReason, peer_isolation}
use warren_sdk_rs.Responder.Types.{
  V6State, available, no_assignment, budget_too_small, Crates, Responder, Answer, Verdict, forward,
  answer, drop,
}
use warren_sdk_rs.Responder.Verdict.{
  is_unicast, is_private, is_echo_request, is_resolver_port, family_verdict, outside_verdict,
  address_verdict, verdict,
}

-- What a verdict depends on beside the packet.
pub record Policy (N4 N6 R : Type 0) : Type 0 where
  pub plan : PeerPlan N4 N6
  pub routes : R
  pub isolation : Bool
  pub v6 : V6State

abbrev pub policy : {W T N4 N6 R : Type 0} → Responder W T N4 N6 R → Policy N4 N6 R
policy s = record { plan = s.plan; routes = s.routes; isolation = s.isolation; v6 = s.v6 }

module _ {W T N4 N6 R : Type 0} (o : Crates W T N4 N6 R) (p : Policy N4 N6 R) where
  -- Outside the tunnel pool: a public address, of a family that the epoch carries. Within: the exit's
  -- resolver, on its port.
  unfoldable pub Reachable : List ℕ → Addr → Type 0
  Reachable packet dst =
      if is_tunnel_pool dst
      then (is_tunnel_gateway dst ≡ true) × (is_resolver_port packet ≡ ok true)
      else (is_private dst ≡ false) × (family_verdict p.v6 dst ≡ forward)

  -- A destination that a peer may reach through the exit.
  pub record Public (packet : List ℕ) : Type 0 where
    pub dst : Addr
    pub named : o.engine.dst_address packet ≡ some dst
    pub unicast : is_unicast dst ≡ true
    pub not_gateway : is_gateway o.ip4 o.ip6 p.plan dst ≡ false
    pub unrouted : o.routing.longest_match p.routes dst ≡ none
    pub not_peers : contains o.ip4 o.ip6 p.plan dst ≡ false
    pub reachable : Reachable packet dst

  -- The address of another peer, where peers may reach each other.
  pub record Neighbour (packet : List ℕ) (to : ℕ) : Type 0 where
    pub dst : Addr
    pub named : o.engine.dst_address packet ≡ some dst
    pub unicast : is_unicast dst ≡ true
    pub routed : (route : _) × (o.routing.longest_match p.routes dst ≡ some route) × (route.1 ≡ to)
    pub shared : p.isolation ≡ false

  pub data Decided (packet : List ℕ) : Checked Verdict → Type 0 where
    forwarded : Public packet → Decided packet (ok forward)
    crossed : (to : ℕ) → Neighbour packet to → Decided packet (ok (Verdict.loopback to))
    answered : (reason : Answer) → Decided packet (ok (answer reason))
    refused : (reason : DropReason) → Decided packet (ok (drop reason))
    failed : (e : PacketError) → Decided packet (err e)
    panicked : Decided packet panic

family_cases :
    (state : V6State) (dst : Addr)
    → (family_verdict state dst ≡ forward)
      ⊎ ((reason : Answer) × (family_verdict state dst ≡ answer reason))
unfolding family_verdict
family_cases state (v4 a) = inl refl
family_cases available (v6 a) = inl refl
family_cases no_assignment (v6 a) = inr (_, refl)
family_cases budget_too_small (v6 a) = inr (_, refl)

module _ {W T N4 N6 R : Type 0} (o : Crates W T N4 N6 R) (s : Responder W T N4 N6 R) where
  module _ (packet : List ℕ) (dst : Addr) where
    -- What `outside_verdict` says of an address that no peer owns, from what makes it reachable.
    outside_Decided :
        (contains o.ip4 o.ip6 s.plan dst ≡ false
          → Reachable o (policy s) packet dst
          → Public o (policy s) packet)
        → Decided o (policy s) packet (outside_verdict o s packet dst)
    unfolding outside_verdict Reachable
    outside_Decided make = elim (Bool-cases (contains o.ip4 o.ip6 s.plan dst)) [
      | inl peers ↦ rw (outside_verdict, peers) (refused _)
      | inr free ↦ elim (Bool-cases (is_tunnel_pool dst)) [
        | inl pool ↦ elim (Bool-cases (is_tunnel_gateway dst)) [
          | inr other ↦ rw (outside_verdict, free, pool, other) (refused _)
          | inl resolver ↦ elim (Checked-cases (is_resolver_port packet)) [
            | inr (inr e) ↦ rw (outside_verdict, free, pool, resolver, e) panicked
            | inr (inl (x, e)) ↦ rw (outside_verdict, free, pool, resolver, e) (failed x)
            | inl (true, e) ↦
                rw (outside_verdict, free, pool, resolver, e)
                  (forwarded (make free (rw pool (resolver, e))))
            | inl (false, e) ↦ rw (outside_verdict, free, pool, resolver, e) (refused _)
          ]
        ]
        | inr outer ↦ elim (Bool-cases (is_private dst)) [
          | inl private ↦ rw (outside_verdict, free, outer, private) (answered _)
          | inr public ↦ elim (family_cases s.v6 dst) [
            | inl e ↦
                rw (outside_verdict, free, outer, public, e)
                  (forwarded (make free (rw outer (public, e))))
            | inr (reason, e) ↦ rw (outside_verdict, free, outer, public, e) (answered reason)
          ]
        ]
      ]
    ]

    routed_Decided :
        (to : ℕ) (isolation : Bool)
        → (isolation ≡ false → Neighbour o (policy s) packet to)
        → Decided o
            (policy s)
            packet
            (ok (if isolation then drop peer_isolation else Verdict.loopback to))
    routed_Decided to true make = refused _
    routed_Decided to false make = crossed to (make refl)

    address_Decided :
        o.engine.dst_address packet ≡ some dst
        → Decided o (policy s) packet (address_verdict o s packet dst)
    unfolding address_verdict
    address_Decided named = elim (Bool-cases (is_unicast dst)) [
      | inr other ↦ rw (address_verdict, other) (refused _)
      | inl unicast ↦ elim (Bool-cases (is_gateway o.ip4 o.ip6 s.plan dst)) [
        | inl own ↦ elim (Checked-cases (is_echo_request packet)) [
          | inr (inr e) ↦ rw (address_verdict, unicast, own, e) panicked
          | inr (inl (x, e)) ↦ rw (address_verdict, unicast, own, e) (failed x)
          | inl (true, e) ↦ rw (address_verdict, unicast, own, e) (answered _)
          | inl (false, e) ↦ rw (address_verdict, unicast, own, e) (refused _)
        ]
        | inr other ↦ elim (Option-cases (o.routing.longest_match s.routes dst)) [
          | inl none_owns ↦
              rw (address_verdict, unicast, other, none_owns)
                (outside_Decided (λ free reachable. record {
                  dst = dst;
                  named = named;
                  unicast = unicast;
                  not_gateway = other;
                  unrouted = none_owns;
                  not_peers = free;
                  reachable = reachable;
                }))
          | inr (route, owned) ↦
              rw (address_verdict, unicast, other, owned)
                (routed_Decided route.1 s.isolation (λ shared. record {
                  dst = dst;
                  named = named;
                  unicast = unicast;
                  routed = (route, owned, refl);
                  shared = shared;
                }))
        ]
      ]
    ]

  -- The verdict on a packet is to forward it only to a destination that a peer may reach, and to hand it
  -- to another peer only where that peer owns its destination and peers are not isolated.
  pub verdict-Decided : (packet : List ℕ) → Decided o (policy s) packet (verdict o s packet)
  unfolding verdict
  verdict-Decided packet = elim (Option-cases (o.engine.dst_address packet)) [
    | inl e ↦ rw (verdict, e) (refused _)
    | inr (dst, e) ↦ rw (verdict, e) (address_Decided packet dst e)
  ]
