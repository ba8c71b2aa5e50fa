-- ===== src/Plan/Peers.antt =====
-- crates/warren-bolthole-core/src/plan.rs: the addresses that the gateway hands to its peers.
pub mod Overlap
pub mod Assignment
use Prim.Native.Nat.{bit_or}
use warren_sdk_rs.Prelude.{
  ℕ, ◌-◌, ◌^◌, Bool, true, false, ◌||◌, Option, none, some, ltb, leb, ◌==◌, if◌then◌else◌,
}
use warren_sdk_rs.Prelude.Outcomes.{Result, ok, err}
use warren_sdk_rs.Plan.{
  Addr, v4, v6, PlanError, tunnel_pool_overlap, wrong_family, subnet_too_small, index_out_of_range,
  in_net, Networks, IpNetwork, net4, net6,
}

abbrev pub tunnel_pool_v4 : ℕ × ℕ
tunnel_pool_v4 = (0x0a420000, 16)

abbrev pub tunnel_pool_v6 : ℕ × ℕ
tunnel_pool_v6 = (0xfdcc000f000100000000000000000000, 64)

abbrev pub tunnel_gateway_v4 : ℕ
tunnel_gateway_v4 = 0x0a420001

abbrev pub tunnel_gateway_v6 : ℕ
tunnel_gateway_v6 = 0xfdcc000f000100000000000000000001

unfoldable pub is_tunnel_pool : Addr → Bool
unfolding in_net
is_tunnel_pool (v4 a) = in_net 32 a tunnel_pool_v4
is_tunnel_pool (v6 a) = in_net 128 a tunnel_pool_v6

unfoldable pub is_tunnel_gateway : Addr → Bool
is_tunnel_gateway (v4 a) = a == tunnel_gateway_v4
is_tunnel_gateway (v6 a) = a == tunnel_gateway_v6

-- `overlaps_v4` and `overlaps_v6`.
unfoldable pub overlaps : ℕ → ℕ × ℕ → ℕ × ℕ → Bool
unfolding in_net
overlaps w net other = in_net w net.0 other || in_net w other.0 net

pub record PeerPlan (N4 N6 : Type 0) : Type 0 where
  pub subnet_v4 : N4
  pub subnet_v6 : N6

module _ {N4 N6 : Type 0} (ip4 : Networks N4) (ip6 : Networks N6) where
  unfoldable pub overlaps_tunnel_pool : IpNetwork N4 N6 → Bool
  unfolding overlaps
  overlaps_tunnel_pool (net4 net) =
      overlaps 32 (ip4.network_address net, ip4.netmask net) tunnel_pool_v4
  overlaps_tunnel_pool (net6 net) =
      overlaps 128 (ip6.network_address net, ip6.netmask net) tunnel_pool_v6

  unfoldable pub new : IpNetwork N4 N6 → IpNetwork N4 N6 → Result (PeerPlan N4 N6) PlanError
  unfolding overlaps_tunnel_pool
  new (net4 n4) (net4 _) = err wrong_family
  new (net6 _) _ = err wrong_family
  new (net4 n4) (net6 n6) =
      if ltb 30 (ip4.netmask n4)
      then err subnet_too_small
      else if overlaps_tunnel_pool (net4 n4)
      then err tunnel_pool_overlap
      else if overlaps_tunnel_pool (net6 n6)
      then err tunnel_pool_overlap
      else ok (record { subnet_v4 = n4; subnet_v6 = n6 })

  unfoldable pub gateway_v4 : PeerPlan N4 N6 → ℕ
  gateway_v4 plan = bit_or (ip4.network_address plan.subnet_v4) 1

  unfoldable pub gateway_v6 : PeerPlan N4 N6 → ℕ
  gateway_v6 plan = bit_or (ip6.network_address plan.subnet_v6) 1

  unfoldable pub last_of : ℕ → ℕ
  last_of host_bits = if leb 32 host_bits then 2 ^ 32 - 1 else 2 ^ host_bits - 1

  unfoldable pub address_for : PeerPlan N4 N6 → ℕ → Result (ℕ × ℕ) PlanError
  unfolding last_of
  address_for plan index =
      let last = last_of (32 - ip4.netmask plan.subnet_v4) in
      if ltb index 2 || leb last index
      then err index_out_of_range
      else ok (
        bit_or (ip4.network_address plan.subnet_v4) index,
        bit_or (ip6.network_address plan.subnet_v6) index,
      )

  unfoldable pub contains : PeerPlan N4 N6 → Addr → Bool
  contains plan (v4 a) = ip4.contains plan.subnet_v4 a
  contains plan (v6 a) = ip6.contains plan.subnet_v6 a

  unfoldable pub is_gateway : PeerPlan N4 N6 → Addr → Bool
  unfolding gateway_v4 gateway_v6
  is_gateway plan (v4 a) = a == gateway_v4 plan
  is_gateway plan (v6 a) = a == gateway_v6 plan
