-- ===== src/Conf.antt =====
-- crates/warren-bolthole-core/src/conf.rs: the rules that a configuration of the gateway is checked by. A
-- label and a key are lists of bytes.
pub mod Pairs
pub mod Rules
pub mod Accepted
pub mod Gateway
use warren_sdk_rs.Prelude.{ℕ, Bool, true, false, ◌||◌, Option, List, [], ◌∷◌, any, if◌then◌else◌}
use warren_sdk_rs.Prelude.Map.{list_beq}
use warren_sdk_rs.Prelude.Outcomes.{Result, ok, err}
use warren_sdk_rs.Plan.{Networks, IpNetwork, net4, net6, Addr, v4, v6}
use warren_sdk_rs.Plan.Peers.{overlaps_tunnel_pool, PeerPlan, gateway_v4, gateway_v6}

pub data KeyError : Type 0 where
  bad_encoding bad_length : KeyError

pub data LabelError : Type 0 where
  empty too_long bad_character : LabelError

-- The parser's errors and those of the checks.
pub data ConfError : Type 0 where
  syntax bad_network missing_private_key missing_public_key : ConfError
  bad_key : KeyError → ConfError
  bad_label : LabelError → ConfError
  missing_allowed_ips overlapping_allowed_ips tunnel_pool_allowed_ips : ConfError
  gateway_address_allowed_ips duplicate_peer_key duplicate_label too_many_peers : ConfError

pub record PeerConf (N4 N6 : Type 0) : Type 0 where
  pub label : List ℕ
  pub public : List ℕ
  pub psk : Option (List ℕ)
  pub allowed : List (IpNetwork N4 N6)

abbrev pub Checked : Type 0
Checked = Result (Unit {0}) ConfError

-- `if refused { return Err(e) }`, and then the rest.
abbrev pub refuse_then : Bool → ConfError → Checked → Checked
refuse_then true e rest = err e
refuse_then false e rest = rest

infixl 5 ◌>>◌
abbrev pub ◌>>◌ : Checked → Checked → Checked
ok u >> rest = rest
err e >> rest = err e

module _ {N4 N6 : Type 0} (ip4 : Networks N4) (ip6 : Networks N6) where
  -- `IpNetwork::contains`, of the crate's two types of networks.
  unfoldable pub net_contains : IpNetwork N4 N6 → Addr → Bool
  net_contains (net4 net) (v4 a) = ip4.contains net a
  net_contains (net4 net) (v6 a) = false
  net_contains (net6 net) (v4 a) = false
  net_contains (net6 net) (v6 a) = ip6.contains net a

  unfoldable pub address_of : IpNetwork N4 N6 → Addr
  address_of (net4 net) = v4 (ip4.network_address net)
  address_of (net6 net) = v6 (ip6.network_address net)

  unfoldable pub nets_overlap : IpNetwork N4 N6 → IpNetwork N4 N6 → Bool
  unfolding net_contains address_of
  nets_overlap left right =
      net_contains left (address_of right) || net_contains right (address_of left)

  -- The walk over the networks of one peer.
  unfoldable pub check_networks : List (IpNetwork N4 N6) → Checked
  check_networks [] = ok tt
  check_networks (network ∷ networks) =
      refuse_then (overlaps_tunnel_pool ip4 ip6 network) tunnel_pool_allowed_ips
        (check_networks networks)

  unfoldable pub check_claims : List (PeerConf N4 N6) → Checked
  unfolding check_networks
  check_claims [] = ok tt
  check_claims (peer ∷ peers) =
      (elim peer.allowed [
        | [] ↦ err missing_allowed_ips
        | network ∷ networks ↦ check_networks (network ∷ networks)
      ])
      >> check_claims peers

  -- The walk over the networks of one peer, each against those of another.
  unfoldable pub check_disjoint : List (IpNetwork N4 N6) → List (IpNetwork N4 N6) → Checked
  unfolding nets_overlap
  check_disjoint [] others = ok tt
  check_disjoint (network ∷ networks) others =
      refuse_then (any (λ candidate. nets_overlap candidate network) others) overlapping_allowed_ips
        (check_disjoint networks others)

  unfoldable pub check_others : PeerConf N4 N6 → List (PeerConf N4 N6) → Checked
  unfolding check_disjoint
  check_others peer [] = ok tt
  check_others peer (other ∷ others) =
      refuse_then (list_beq other.public peer.public) duplicate_peer_key (
        refuse_then (list_beq other.label peer.label) duplicate_label
          (check_disjoint peer.allowed other.allowed))
      >> check_others peer others

  unfoldable pub check_pairs : List (PeerConf N4 N6) → Checked
  unfolding check_others
  check_pairs [] = ok tt
  check_pairs (peer ∷ peers) = check_others peer peers >> check_pairs peers

  unfoldable pub check_peers : List (PeerConf N4 N6) → Checked
  unfolding check_claims check_pairs
  check_peers peers = check_claims peers >> check_pairs peers

  -- The walk of `check_against` over the networks of one peer, and over the peers.
  unfoldable pub check_gateway : PeerPlan N4 N6 → List (IpNetwork N4 N6) → Checked
  unfolding net_contains gateway_v4 gateway_v6
  check_gateway plan [] = ok tt
  check_gateway plan (network ∷ networks) =
      refuse_then
        (net_contains network (v4 (gateway_v4 ip4 ip6 plan))
          || net_contains network (v6 (gateway_v6 ip4 ip6 plan)))
        gateway_address_allowed_ips (check_gateway plan networks)

  unfoldable pub check_against : PeerPlan N4 N6 → List (PeerConf N4 N6) → Checked
  unfolding check_gateway
  check_against plan [] = ok tt
  check_against plan (peer ∷ peers) = check_gateway plan peer.allowed >> check_against plan peers
