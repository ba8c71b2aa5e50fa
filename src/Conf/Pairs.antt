-- ===== src/Conf/Pairs.antt =====
-- crates/warren-bolthole-core/src/conf.rs: two networks overlap where they share an address, and two
-- lists of networks where some address is in both.
use warren_sdk_rs.Prelude.{
  Bool, true, List, [], ◌∷◌, ◌≡◌, ◌↔◌, sym, ◌∙◌, inl, inr, Bool-cases, any, arith,
}
use warren_sdk_rs.Plan.{Networks, IpNetwork, net4, net6, Addr, v4, v6}
use warren_sdk_rs.Plan.Prefixes.{Lawful}
use warren_sdk_rs.Plan.Complement.{covers, Fits}
use warren_sdk_rs.Plan.Peers.{overlaps}
use warren_sdk_rs.Plan.Peers.Overlap.{Shared, overlaps-Shared, shape4, shape6}
use warren_sdk_rs.Conf.{nets_overlap}

module _ {N4 N6 : Type 0} (ip4 : Networks N4) (ip6 : Networks N6) where
  -- An address that two lists of networks cover.
  pub record Meets (xs ys : List (IpNetwork N4 N6)) : Type 0 where
    pub address : Addr
    pub fits : Fits address
    pub first : any (covers ip4 ip6 address) xs ≡ true
    pub second : any (covers ip4 ip6 address) ys ≡ true

  -- The Boolean test of `check_disjoint`.
  unfoldable pub clash : List (IpNetwork N4 N6) → List (IpNetwork N4 N6) → Bool
  clash xs ys = any (λ x. any (λ y. nets_overlap ip4 ip6 y x) ys) xs

  module _ (lawful4 : Lawful 32 ip4) (lawful6 : Lawful 128 ip6) where
    overlap4 :
        (x y : N4)
        → nets_overlap ip4 ip6 (net4 x) (net4 y) ≡ overlaps 32 (shape4 ip4 ip6 y) (shape4 ip4 ip6 x)
    unfolding nets_overlap overlaps
    overlap4 x y = ground (
      arith,
      lawful4.member x (ip4.network_address y) (lawful4.valid y).low,
      lawful4.member y (ip4.network_address x) (lawful4.valid x).low,
    )

    overlap6 :
        (x y : N6)
        → nets_overlap ip4 ip6 (net6 x) (net6 y)
          ≡ overlaps 128 (shape6 ip4 ip6 y) (shape6 ip4 ip6 x)
    unfolding nets_overlap overlaps
    overlap6 x y = ground (
      arith,
      lawful6.member x (ip6.network_address y) (lawful6.valid y).low,
      lawful6.member y (ip6.network_address x) (lawful6.valid x).low,
    )

    shared4 :
        (x y : N4)
        → (overlaps 32 (shape4 ip4 ip6 y) (shape4 ip4 ip6 x) ≡ true)
          ↔ Shared 32 (shape4 ip4 ip6 y) (shape4 ip4 ip6 x)
    shared4 x y =
        let hx = lawful4.valid x in
        let hy = lawful4.valid y in overlaps-Shared 32 _ _ _ _ hy.low hy.short hx.low hx.short

    shared6 :
        (x y : N6)
        → (overlaps 128 (shape6 ip4 ip6 y) (shape6 ip4 ip6 x) ≡ true)
          ↔ Shared 128 (shape6 ip4 ip6 y) (shape6 ip4 ip6 x)
    shared6 x y =
        let hx = lawful6.valid x in
        let hy = lawful6.valid y in overlaps-Shared 128 _ _ _ _ hy.low hy.short hx.low hx.short

    -- Two networks that overlap have an address in common.
    overlap_meets :
        (x y : IpNetwork N4 N6)
        → nets_overlap ip4 ip6 x y ≡ true
        → (addr : Addr) × Fits addr
          × (covers ip4 ip6 addr x ≡ true)
          × (covers ip4 ip6 addr y ≡ true)
    unfolding Fits covers nets_overlap
    overlap_meets (net4 x) (net4 y) h =
        let s = (shared4 x y).0 (sym (overlap4 x y) ∙ h) in
        (v4 s.address, s.fits, s.in_second, s.in_first)
    overlap_meets (net6 x) (net6 y) h =
        let s = (shared6 x y).0 (sym (overlap6 x y) ∙ h) in
        (v6 s.address, s.fits, s.in_second, s.in_first)
    overlap_meets (net4 x) (net6 y) h = absurd (ground (arith, h))
    overlap_meets (net6 x) (net4 y) h = absurd (ground (arith, h))

    meets_overlap :
        (addr : Addr) (x y : IpNetwork N4 N6)
        → Fits addr
        → covers ip4 ip6 addr x ≡ true
        → covers ip4 ip6 addr y ≡ true
        → nets_overlap ip4 ip6 x y ≡ true
    unfolding Fits covers
    meets_overlap (v4 a) (net4 x) (net4 y) f hx hy =
        overlap4 x y
        ∙ (shared4 x y).1 (record { address = a; fits = f; in_first = hy; in_second = hx })
    meets_overlap (v6 a) (net6 x) (net6 y) f hx hy =
        overlap6 x y
        ∙ (shared6 x y).1 (record { address = a; fits = f; in_first = hy; in_second = hx })
    meets_overlap (v4 a) (net6 x) y f hx hy = absurd (ground (arith, hx))
    meets_overlap (v6 a) (net4 x) y f hx hy = absurd (ground (arith, hx))
    meets_overlap (v4 a) (net4 x) (net6 y) f hx hy = absurd (ground (arith, hy))
    meets_overlap (v6 a) (net6 x) (net4 y) f hx hy = absurd (ground (arith, hy))

    one_covers :
        (addr : Addr) (x : IpNetwork N4 N6) (ys : List (IpNetwork N4 N6))
        → Fits addr
        → covers ip4 ip6 addr x ≡ true
        → any (covers ip4 ip6 addr) ys ≡ true
        → any (λ y. nets_overlap ip4 ip6 y x) ys ≡ true
    unfolding any
    one_covers addr x [] f hx h = absurd (ground (arith, h))
    one_covers addr x (y ∷ ys) f hx h = elim (Bool-cases (covers ip4 ip6 addr y)) [
      | inl e ↦ ground (arith, meets_overlap addr y x f e hx)
      | inr e ↦ ground (arith, e, h, one_covers addr x ys f hx)
    ]

    pub Meets-clash : (xs ys : List (IpNetwork N4 N6)) → Meets xs ys → clash xs ys ≡ true
    unfolding any clash
    Meets-clash [] ys m = absurd (ground (arith, m.first))
    Meets-clash (x ∷ xs) ys m = elim (Bool-cases (covers ip4 ip6 m.address x)) [
      | inl e ↦ ground (arith, one_covers m.address x ys m.fits e m.second)
      | inr e ↦
          let rest : any (covers ip4 ip6 m.address) xs ≡ true = ground (arith, e, m.first) in
          ground (
            arith,
            Meets-clash xs ys
                (record { address = m.address; fits = m.fits; first = rest; second = m.second }),
          )
    ]

    one_clashes :
        (x : IpNetwork N4 N6) (ys : List (IpNetwork N4 N6))
        → any (λ y. nets_overlap ip4 ip6 y x) ys ≡ true
        → (addr : Addr) × Fits addr
          × (covers ip4 ip6 addr x ≡ true)
          × (any (covers ip4 ip6 addr) ys ≡ true)
    unfolding any
    one_clashes x [] h = absurd (ground (arith, h))
    one_clashes x (y ∷ ys) h = elim (Bool-cases (nets_overlap ip4 ip6 y x)) [
      | inl e ↦ let (addr, f, hy, hx) = overlap_meets y x e in (addr, f, hx, ground (arith, hy))
      | inr e ↦
          let (addr, f, hx, h') = one_clashes x ys (ground (arith, e, h)) in
          (addr, f, hx, ground (arith, h'))
    ]

    pub clash-Meets : (xs ys : List (IpNetwork N4 N6)) → clash xs ys ≡ true → Meets xs ys
    unfolding any clash
    clash-Meets [] ys h = absurd (ground (arith, h))
    clash-Meets (x ∷ xs) ys h = elim (Bool-cases (any (λ y. nets_overlap ip4 ip6 y x) ys)) [
      | inl e ↦
          let (addr, f, hx, hy) = one_clashes x ys e in
          record { address = addr; fits = f; first = ground (arith, hx); second = hy }
      | inr e ↦
          let m = clash-Meets xs ys (ground (arith, e, h)) in
          record {
            address = m.address;
            fits = m.fits;
            first = ground (arith, m.first);
            second = m.second;
          }
    ]
