-- ===== src/Conf/Gateway.antt =====
-- crates/warren-bolthole-core/src/conf.rs: the check of a configuration against the plan of the peers.
use warren_sdk_rs.Prelude.{◌+◌, true, not, ◌&&◌, List, [], ◌∷◌, ◌≡◌, ◌↔◌, refl, any, arith}
use warren_sdk_rs.Prelude.Outcomes.{is_ok}
use warren_sdk_rs.Plan.{Networks, IpNetwork, net4, net6, Addr, v4, v6}
use warren_sdk_rs.Plan.Prefixes.{Lawful}
use warren_sdk_rs.Plan.Complement.{covers, Fits}
use warren_sdk_rs.Plan.Peers.{PeerPlan, gateway_v4, gateway_v6}
use warren_sdk_rs.Conf.{PeerConf, net_contains, check_gateway, check_against}
use warren_sdk_rs.Conf.Rules.{owners}

module _ {N4 N6 : Type 0} (ip4 : Networks N4) (ip6 : Networks N6) (lawful4 : Lawful 32 ip4)
    (lawful6 : Lawful 128 ip6) where
  contains_lem :
      (net : IpNetwork N4 N6) (addr : Addr)
      → Fits addr
      → net_contains ip4 ip6 net addr ≡ covers ip4 ip6 addr net
  unfolding net_contains covers Fits
  contains_lem (net4 n) (v4 a) f = lawful4.member n a f
  contains_lem (net6 n) (v6 a) f = lawful6.member n a f
  contains_lem (net4 n) (v6 a) f = refl
  contains_lem (net6 n) (v4 a) f = refl

  check_gateway_ok :
      (plan : PeerPlan N4 N6) (nets : List (IpNetwork N4 N6))
      → Fits (v4 (gateway_v4 ip4 ip6 plan))
      → Fits (v6 (gateway_v6 ip4 ip6 plan))
      → is_ok (check_gateway ip4 ip6 plan nets) ≡ (
          not (any (covers ip4 ip6 (v4 (gateway_v4 ip4 ip6 plan))) nets)
          && not (any (covers ip4 ip6 (v6 (gateway_v6 ip4 ip6 plan))) nets))
  unfolding check_gateway any
  check_gateway_ok plan [] f4 f6 = refl
  check_gateway_ok plan (n ∷ ns) f4 f6 =
      ground (arith, contains_lem n _ f4, contains_lem n _ f6, check_gateway_ok plan ns f4 f6)

  against_to :
      (plan : PeerPlan N4 N6) (peers : List (PeerConf N4 N6))
      → Fits (v4 (gateway_v4 ip4 ip6 plan))
      → Fits (v6 (gateway_v6 ip4 ip6 plan))
      → (is_ok (check_against ip4 ip6 plan peers) ≡ true) ↔ (
          owners ip4 ip6 (v4 (gateway_v4 ip4 ip6 plan)) peers
            + owners ip4 ip6 (v6 (gateway_v6 ip4 ip6 plan)) peers
          ≡ 0)
  unfolding check_against owners
  against_to plan [] f4 f6 = (λ h. refl, λ h. refl)
  against_to plan (p ∷ ps) f4 f6 =
      ground (arith, check_gateway_ok plan p.allowed f4 f6, against_to plan ps f4 f6)

  -- The plan's gateway addresses fit their types. A configuration is accepted against the plan exactly
  -- where no peer claims either of them.
  pub check_against-owners :
      (plan : PeerPlan N4 N6) (peers : List (PeerConf N4 N6))
      → Fits (v4 (gateway_v4 ip4 ip6 plan))
      → Fits (v6 (gateway_v6 ip4 ip6 plan))
      → (is_ok (check_against ip4 ip6 plan peers) ≡ true) ↔ (
          (owners ip4 ip6 (v4 (gateway_v4 ip4 ip6 plan)) peers ≡ 0)
          × (owners ip4 ip6 (v6 (gateway_v6 ip4 ip6 plan)) peers ≡ 0))
  check_against-owners plan peers f4 f6 = ground (arith, against_to plan peers f4 f6)
