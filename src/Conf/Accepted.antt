-- ===== src/Conf/Accepted.antt =====
-- crates/warren-bolthole-core/src/conf.rs: the configurations that the checks accept.
use warren_sdk_rs.Prelude.{
  ◌≤◌, true, false, List, [], ◌∷◌, ◌≡◌, ◌↔◌, refl, inl, inr, Bool-cases, any, arith,
}
use warren_sdk_rs.Prelude.Outcomes.{is_ok}
use warren_sdk_rs.Plan.{Networks, IpNetwork, net4, net6, Addr, v4, v6}
use warren_sdk_rs.Plan.Prefixes.{Lawful}
use warren_sdk_rs.Plan.Complement.{covers, Fits}
use warren_sdk_rs.Plan.Peers.{overlaps_tunnel_pool, is_tunnel_pool}
use warren_sdk_rs.Plan.Peers.Overlap.{shared4, shared6}
use warren_sdk_rs.Conf.{PeerConf, check_peers}
use warren_sdk_rs.Conf.Pairs.{clash, Meets-clash, clash-Meets}
use warren_sdk_rs.Conf.Rules.{
  owners, Contested, Pooled, Granted, apart, pooled, check_claims_ok, check_pairs_ok,
}

module _ {N4 N6 : Type 0} (ip4 : Networks N4) (ip6 : Networks N6) where
  module _ (lawful4 : Lawful 32 ip4) (lawful6 : Lawful 128 ip6) where
    no_owner :
        (addr : Addr) (p : PeerConf N4 N6) (ps : List (PeerConf N4 N6))
        → Fits addr
        → any (covers ip4 ip6 addr) p.allowed ≡ true
        → any (λ q. clash ip4 ip6 p.allowed q.allowed) ps ≡ false
        → owners ip4 ip6 addr ps ≡ 0
    unfolding any owners
    no_owner addr p [] f h e = refl
    no_owner addr p (q ∷ qs) f h e = elim (Bool-cases (any (covers ip4 ip6 addr) q.allowed)) [
      | inl c ↦
          let m =
            Meets-clash ip4 ip6 lawful4 lawful6 p.allowed q.allowed
              (record { address = addr; fits = f; first = h; second = c }) in
          absurd (ground (arith, e, m))
      | inr c ↦ ground (arith, c, e, no_owner addr p qs f h)
    ]

    owners-apart :
        (addr : Addr) (peers : List (PeerConf N4 N6))
        → Fits addr
        → apart ip4 ip6 peers ≡ true
        → owners ip4 ip6 addr peers ≤ 1
    unfolding apart owners
    owners-apart addr [] f h = omega arith
    owners-apart addr (p ∷ ps) f h = elim (Bool-cases (any (covers ip4 ip6 addr) p.allowed)) [
      | inl c ↦ ground (arith, c, no_owner addr p ps f c, h)
      | inr c ↦ ground (arith, c, owners-apart addr ps f, h)
    ]

    one_contested :
        (p : PeerConf N4 N6) (ps : List (PeerConf N4 N6))
        → any (λ q. clash ip4 ip6 p.allowed q.allowed) ps ≡ true
        → (addr : Addr) × Fits addr
          × (any (covers ip4 ip6 addr) p.allowed ≡ true)
          × (1 ≤ owners ip4 ip6 addr ps)
    unfolding any owners
    one_contested p [] h = absurd (ground (arith, h))
    one_contested p (q ∷ qs) h = elim (Bool-cases (clash ip4 ip6 p.allowed q.allowed)) [
      | inl c ↦
          let m = clash-Meets ip4 ip6 lawful4 lawful6 p.allowed q.allowed c in
          (m.address, m.fits, m.first, ground (arith, m.second))
      | inr c ↦
          let (addr, f, first, o) = one_contested p qs (ground (arith, c, h)) in
          (addr, f, first, ground (arith, o))
    ]

    contested :
        (peers : List (PeerConf N4 N6)) → apart ip4 ip6 peers ≡ false → Contested ip4 ip6 peers
    unfolding apart owners
    contested [] h = absurd (ground (arith, h))
    contested (p ∷ ps) h = elim (Bool-cases (any (λ q. clash ip4 ip6 p.allowed q.allowed) ps)) [
      | inl c ↦
          let (addr, f, first, o) = one_contested p ps c in
          record { address = addr; fits = f; claims = ground (arith, first, o) }
      | inr c ↦
          let rest = contested ps (ground (arith, c, h)) in
          record { address = rest.address; fits = rest.fits; claims = ground (arith, rest.claims) }
    ]

    -- A network that overlaps the tunnel pool, and an address in both.
    pool_address :
        (n : IpNetwork N4 N6)
        → overlaps_tunnel_pool ip4 ip6 n ≡ true
        → (addr : Addr) × Fits addr × (is_tunnel_pool addr ≡ true) × (covers ip4 ip6 addr n ≡ true)
    unfolding Fits covers is_tunnel_pool
    pool_address (net4 n) h =
        let s = (shared4 ip4 ip6 lawful4 lawful6 n).0 h in
        (v4 s.address, s.fits, s.in_second, s.in_first)
    pool_address (net6 n) h =
        let s = (shared6 ip4 ip6 lawful4 lawful6 n).0 h in
        (v6 s.address, s.fits, s.in_second, s.in_first)

    pool_overlaps :
        (addr : Addr) (n : IpNetwork N4 N6)
        → Fits addr
        → is_tunnel_pool addr ≡ true
        → covers ip4 ip6 addr n ≡ true
        → overlaps_tunnel_pool ip4 ip6 n ≡ true
    unfolding Fits covers is_tunnel_pool
    pool_overlaps (v4 a) (net4 n) f p c =
        (shared4 ip4 ip6 lawful4 lawful6 n).1
          (record { address = a; fits = f; in_first = c; in_second = p })
    pool_overlaps (v6 a) (net6 n) f p c =
        (shared6 ip4 ip6 lawful4 lawful6 n).1
          (record { address = a; fits = f; in_first = c; in_second = p })
    pool_overlaps (v4 a) (net6 n) f p c = absurd (ground (arith, c))
    pool_overlaps (v6 a) (net4 n) f p c = absurd (ground (arith, c))

    pool_any :
        (addr : Addr) (nets : List (IpNetwork N4 N6))
        → Fits addr
        → is_tunnel_pool addr ≡ true
        → any (covers ip4 ip6 addr) nets ≡ true
        → any (overlaps_tunnel_pool ip4 ip6) nets ≡ true
    unfolding any
    pool_any addr [] f p h = h
    pool_any addr (n ∷ ns) f p h = elim (Bool-cases (covers ip4 ip6 addr n)) [
      | inl c ↦ ground (arith, pool_overlaps addr n f p c)
      | inr c ↦ ground (arith, c, h, pool_any addr ns f p)
    ]

    any_pool :
        (nets : List (IpNetwork N4 N6))
        → any (overlaps_tunnel_pool ip4 ip6) nets ≡ true
        → (addr : Addr) × Fits addr
          × (is_tunnel_pool addr ≡ true)
          × (any (covers ip4 ip6 addr) nets ≡ true)
    unfolding any
    any_pool [] h = absurd (ground (arith, h))
    any_pool (n ∷ ns) h = elim (Bool-cases (overlaps_tunnel_pool ip4 ip6 n)) [
      | inl c ↦ let (addr, f, p, e) = pool_address n c in (addr, f, p, ground (arith, e))
      | inr c ↦
          let (addr, f, p, e) = any_pool ns (ground (arith, c, h)) in
          (addr, f, p, ground (arith, e))
    ]

    pooled_owner :
        (peers : List (PeerConf N4 N6)) → pooled ip4 ip6 peers ≡ true → Pooled ip4 ip6 peers
    unfolding any pooled owners
    pooled_owner [] h = absurd (ground (arith, h))
    pooled_owner (p ∷ ps) h = elim (Bool-cases (any (overlaps_tunnel_pool ip4 ip6) p.allowed)) [
      | inl c ↦
          let (addr, f, i, e) = any_pool p.allowed c in
          record { address = addr; fits = f; pool = i; claims = ground (arith, e) }
      | inr c ↦
          let rest = pooled_owner ps (ground (arith, c, h)) in
          record {
            address = rest.address;
            fits = rest.fits;
            pool = rest.pool;
            claims = ground (arith, rest.claims);
          }
    ]

    no_pool_owner :
        (addr : Addr) (peers : List (PeerConf N4 N6))
        → Fits addr
        → is_tunnel_pool addr ≡ true
        → pooled ip4 ip6 peers ≡ false
        → owners ip4 ip6 addr peers ≡ 0
    unfolding any pooled owners
    no_pool_owner addr [] f i h = refl
    no_pool_owner addr (p ∷ ps) f i h =
        ground (arith, h, pool_any addr p.allowed f i, no_pool_owner addr ps f i)

    Granted-to :
        (peers : List (PeerConf N4 N6))
        → is_ok (check_peers ip4 ip6 peers) ≡ true
        → Granted ip4 ip6 peers
    unfolding check_peers
    Granted-to peers h =
        let claims = check_claims_ok ip4 ip6 peers in
        let pairs = check_pairs_ok ip4 ip6 peers in
        record {
          claiming = ground (arith, claims, pairs, h);
          keys = ground (arith, claims, pairs, h);
          labels = ground (arith, claims, pairs, h);
          sole =
              λ c. ground (arith, claims, pairs, h, owners-apart c.address peers c.fits, c.claims);
          outside = λ c.
              ground
                (arith, claims, pairs, h, no_pool_owner c.address peers c.fits c.pool, c.claims);
        }

    Granted-from :
        (peers : List (PeerConf N4 N6))
        → Granted ip4 ip6 peers
        → is_ok (check_peers ip4 ip6 peers) ≡ true
    unfolding check_peers
    Granted-from peers g = elim (Bool-cases (apart ip4 ip6 peers)) [
      | inr e ↦ absurd (g.sole (contested peers e))
      | inl e ↦ elim (Bool-cases (pooled ip4 ip6 peers)) [
        | inl f ↦ absurd (g.outside (pooled_owner peers f))
        | inr f ↦ ground (
          arith,
          e,
          f,
          check_claims_ok ip4 ip6 peers,
          check_pairs_ok ip4 ip6 peers,
          g.claiming,
          g.keys,
          g.labels,
        )
      ]
    ]

    -- The checks accept a list of peers exactly where each claims some network, no two have the same
    -- key or the same label, no address is claimed by two of them, and none of the range that an exit
    -- assigns from is claimed at all.
    pub check_peers-Granted :
        (peers : List (PeerConf N4 N6))
        → (is_ok (check_peers ip4 ip6 peers) ≡ true) ↔ Granted ip4 ip6 peers
    check_peers-Granted peers = (Granted-to peers, Granted-from peers)
