-- ===== src/Responder/Verdict.antt =====
-- crates/warren-bolthole-core/src/responder.rs: what a decrypted packet is allowed to be.
pub mod Decided
use Prim.Native.Nat.{bit_and}
use warren_sdk_rs.Prelude.{
  ℕ, ◌-◌, ◌*◌, ◌/◌, ◌%◌, ◌^◌, Bool, false, not, ◌&&◌, ◌||◌, none, some, List, ltb, leb, ◌==◌, any,
  if◌then◌else◌,
}
use warren_sdk_rs.Bytes.{Checked, ok, err, panic, ◌>>=◌}
use warren_sdk_rs.Ip.{is_v6, parse_ip, read_icmp, read_ports, proto_tcp, proto_udp}
use warren_sdk_rs.Plan.{Addr, v4, v6}
use warren_sdk_rs.Plan.Peers.{contains, is_gateway, is_tunnel_pool, is_tunnel_gateway}
use warren_sdk_rs.Conf.{net_contains}
use warren_sdk_rs.Responder.Counters.{
  malformed, non_unicast, self_destination, peer_isolation, unowned_peer_address, pool_destination,
  v6_unavailable, v6_budget,
}
use warren_sdk_rs.Responder.Types.{
  V6State, available, no_assignment, budget_too_small, Crates, Peer, Responder, Verdict, forward,
  answer, drop, echo, unreachable, no_route_v6,
}

-- The octet of an IPv4 address after `n` others.
abbrev pub octet : ℕ → ℕ → ℕ
octet n a = a / 2 ^ (24 - 8 * n) % 256

-- 169.254.0.0/16, and fe80::/10 by the first segment.
unfoldable pub is_link_local : Addr → Bool
is_link_local (v4 a) = a / 2 ^ 16 == 0xa9fe
is_link_local (v6 a) = bit_and (a / 2 ^ 112) 0xffc0 == 0xfe80

-- Multicast, broadcast, loopback, unspecified and link-local addresses are not unicast.
unfoldable pub is_unicast : Addr → Bool
unfolding is_link_local
is_unicast (v4 a) = not (
    (leb 224 (octet 0 a) && leb (octet 0 a) 239)
    || a == 2 ^ 32 - 1
    || octet 0 a == 127
    || a == 0
    || is_link_local (v4 a))
is_unicast (v6 a) = not (a / 2 ^ 120 == 255 || a == 1 || a == 0 || is_link_local (v6 a))

unfoldable pub is_cgnat : ℕ → Bool
is_cgnat a = octet 0 a == 100 && (leb 64 (octet 1 a) && ltb (octet 1 a) 128)

-- `Ipv4Addr::is_private` and `is_cgnat`, and fc00::/7.
unfoldable pub is_private : Addr → Bool
unfolding is_cgnat
is_private (v4 a) =
    octet 0 a == 10
    || (octet 0 a == 172 && (leb 16 (octet 1 a) && leb (octet 1 a) 31))
    || (octet 0 a == 192 && octet 1 a == 168)
    || is_cgnat a
is_private (v6 a) = bit_and (a / 2 ^ 112) 0xfe00 == 0xfc00

-- `let Ok(a) = m else { return false }`, and then the rest.
abbrev pub or_false : {A : Type 0} → Checked A → (A → Checked Bool) → Checked Bool
or_false (ok a) f = f a
or_false (err e) f = ok false
or_false panic f = panic

unfoldable pub is_echo_request : List ℕ → Checked Bool
is_echo_request packet = or_false (parse_ip packet) (λ header.
    or_false (read_icmp packet header.l4_offset)
      (λ icmp. ok ((is_v6 header && icmp.kind == 128) || (not (is_v6 header) && icmp.kind == 8))))

unfoldable pub is_resolver_port : List ℕ → Checked Bool
is_resolver_port packet = or_false (parse_ip packet) (λ header.
    if not (header.protocol == proto_udp) && not (header.protocol == proto_tcp)
    then ok false
    else or_false (read_ports packet header.l4_offset) (λ ports. ok (ports.1 == 53)))

-- The last tests of `verdict`, on the family.
unfoldable pub family_verdict : V6State → Addr → Verdict
family_verdict state (v4 a) = forward
family_verdict available (v6 a) = forward
family_verdict no_assignment (v6 a) = answer (no_route_v6 v6_unavailable)
family_verdict budget_too_small (v6 a) = answer (no_route_v6 v6_budget)

module _ {W T N4 N6 R : Type 0} (o : Crates W T N4 N6 R) where
  -- `Peer::owns`.
  unfoldable pub owns : Peer T N4 N6 → Addr → Bool
  owns peer addr = any (λ network. net_contains o.ip4 o.ip6 network addr) peer.allowed

  -- `verdict` past the test of the routes, for an address that no peer owns.
  unfoldable pub outside_verdict : Responder W T N4 N6 R → List ℕ → Addr → Checked Verdict
  unfolding is_resolver_port is_private family_verdict
  outside_verdict s packet dst =
      if contains o.ip4 o.ip6 s.plan dst
      then ok (drop unowned_peer_address)
      else if is_tunnel_pool dst
      then (if is_tunnel_gateway dst
          then (do
            resolver ← is_resolver_port packet
            ok (if resolver then forward else drop pool_destination))
          else ok (drop pool_destination))
      else if is_private dst
      then ok (answer unreachable)
      else ok (family_verdict s.v6 dst)

  unfoldable pub address_verdict : Responder W T N4 N6 R → List ℕ → Addr → Checked Verdict
  unfolding is_unicast is_echo_request outside_verdict
  address_verdict s packet dst =
      if not (is_unicast dst)
      then ok (drop non_unicast)
      else if is_gateway o.ip4 o.ip6 s.plan dst
      then (do
        request ← is_echo_request packet
        ok (if request then answer echo else drop self_destination))
      else elim (o.routing.longest_match s.routes dst) [
        | none ↦ outside_verdict s packet dst
        | some (network, owner) ↦
            ok (if s.isolation then drop peer_isolation else Verdict.loopback owner)
      ]

  unfoldable pub verdict : Responder W T N4 N6 R → List ℕ → Checked Verdict
  unfolding address_verdict
  verdict s packet = elim (o.engine.dst_address packet) [
    | none ↦ ok (drop malformed)
    | some dst ↦ address_verdict s packet dst
  ]
