-- ===== src/Conf/Rules.antt =====
-- crates/warren-bolthole-core/src/conf.rs: what the checks are to grant, and the checks as tests.
use warren_sdk_rs.Prelude.{
  ℕ, ◌+◌, ◌≤◌, Bool, true, false, not, ◌&&◌, List, [], ◌∷◌, ◌≡◌, refl, any, arith, if◌then◌else◌,
}
use warren_sdk_rs.Prelude.Map.{list_beq}
use warren_sdk_rs.Prelude.Outcomes.{err, is_ok}
use warren_sdk_rs.Plan.{Networks, IpNetwork, Addr}
use warren_sdk_rs.Plan.Complement.{covers, Fits}
use warren_sdk_rs.Plan.Peers.{overlaps_tunnel_pool, is_tunnel_pool}
use warren_sdk_rs.Conf.{
  PeerConf, Checked, missing_allowed_ips, ◌>>◌, check_networks, check_claims, check_disjoint,
  check_others, check_pairs,
}
use warren_sdk_rs.Conf.Pairs.{clash}

module _ {N4 N6 : Type 0} (ip4 : Networks N4) (ip6 : Networks N6) where
  -- No two peers have the same text by `text`.
  unfoldable pub distinct : (PeerConf N4 N6 → List ℕ) → List (PeerConf N4 N6) → Bool
  distinct text [] = true
  distinct text (p ∷ ps) = not (any (λ q. list_beq (text q) (text p)) ps) && distinct text ps

  -- The number of peers that claim an address.
  unfoldable pub owners : Addr → List (PeerConf N4 N6) → ℕ
  owners addr [] = 0
  owners addr (p ∷ ps) = (if any (covers ip4 ip6 addr) p.allowed then 1 else 0) + owners addr ps

  -- An address that two peers claim, and one of the tunnel pool that a peer claims.
  pub record Contested (peers : List (PeerConf N4 N6)) : Type 0 where
    pub address : Addr
    pub fits : Fits address
    pub claims : 2 ≤ owners address peers

  pub record Pooled (peers : List (PeerConf N4 N6)) : Type 0 where
    pub address : Addr
    pub fits : Fits address
    pub pool : is_tunnel_pool address ≡ true
    pub claims : 1 ≤ owners address peers

  unfoldable pub claims_nothing : PeerConf N4 N6 → Bool
  claims_nothing p = elim p.allowed [ [] ↦ true | network ∷ networks ↦ false ]

  -- What the checks are to grant.
  pub record Granted (peers : List (PeerConf N4 N6)) : Type 0 where
    pub claiming : any claims_nothing peers ≡ false
    pub keys : distinct (λ p. p.public) peers ≡ true
    pub labels : distinct (λ p. p.label) peers ≡ true
    pub sole : ¬ Contested peers
    pub outside : ¬ Pooled peers

  unfoldable pub apart : List (PeerConf N4 N6) → Bool
  apart [] = true
  apart (p ∷ ps) = not (any (λ q. clash ip4 ip6 p.allowed q.allowed) ps) && apart ps

  unfoldable pub pooled : List (PeerConf N4 N6) → Bool
  pooled peers = any (λ p. any (overlaps_tunnel_pool ip4 ip6) p.allowed) peers

  -- The checks as tests.
  check_networks_ok :
      (nets : List (IpNetwork N4 N6))
      → is_ok (check_networks ip4 ip6 nets) ≡ not (any (overlaps_tunnel_pool ip4 ip6) nets)
  unfolding check_networks any
  check_networks_ok [] = refl
  check_networks_ok (n ∷ ns) = ground (arith, check_networks_ok ns)

  check_disjoint_ok :
      (nets others : List (IpNetwork N4 N6))
      → is_ok (check_disjoint ip4 ip6 nets others) ≡ not (clash ip4 ip6 nets others)
  unfolding check_disjoint any clash
  check_disjoint_ok [] others = refl
  check_disjoint_ok (n ∷ ns) others = ground (arith, check_disjoint_ok ns others)

  head_ok :
      (nets : List (IpNetwork N4 N6)) (rest : Checked)
      → is_ok (
          (elim nets [ [] ↦ err missing_allowed_ips | n ∷ ns ↦ check_networks ip4 ip6 (n ∷ ns) ])
          >> rest)
        ≡ (not (elim nets [ [] ↦ true | n ∷ ns ↦ false ])
            && not (any (overlaps_tunnel_pool ip4 ip6) nets)
            && is_ok rest)
  head_ok [] rest = refl
  head_ok (n ∷ ns) rest = ground (arith, check_networks_ok (n ∷ ns))

  pub check_claims_ok :
      (peers : List (PeerConf N4 N6))
      → is_ok (check_claims ip4 ip6 peers) ≡ (not (any claims_nothing peers) && not (pooled peers))
  unfolding check_claims any claims_nothing pooled
  check_claims_ok [] = refl
  check_claims_ok (p ∷ ps) =
      ground (arith, head_ok p.allowed (check_claims ip4 ip6 ps), check_claims_ok ps)

  check_others_ok :
      (p : PeerConf N4 N6) (ps : List (PeerConf N4 N6))
      → is_ok (check_others ip4 ip6 p ps) ≡ (
          not (any (λ q. list_beq q.public p.public) ps)
          && not (any (λ q. list_beq q.label p.label) ps)
          && not (any (λ q. clash ip4 ip6 p.allowed q.allowed) ps))
  unfolding check_others any
  check_others_ok p [] = refl
  check_others_ok p (q ∷ qs) =
      ground (arith, check_others_ok p qs, check_disjoint_ok p.allowed q.allowed)

  pub check_pairs_ok :
      (peers : List (PeerConf N4 N6))
      → is_ok (check_pairs ip4 ip6 peers)
        ≡ (distinct (λ p. p.public) peers && distinct (λ p. p.label) peers && apart peers)
  unfolding check_pairs any distinct apart
  check_pairs_ok [] = refl
  check_pairs_ok (p ∷ ps) = ground (arith, check_others_ok p ps, check_pairs_ok ps)
