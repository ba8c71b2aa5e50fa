-- ===== src/Plan/Complement.antt =====
-- crates/warren-bolthole-core/src/plan.rs: the complement of a list of networks.
use warren_sdk_rs.Prelude.{
  ℕ, ◌^◌, ◌<◌, Bool, true, false, not, ◌&&◌, ◌||◌, List, [], ◌∷◌, ◌≡◌, refl, ap, inl, inr,
  Bool-cases, arith, any, any-append,
}
use warren_sdk_rs.Prelude.Masks.{pow-pos, bit_and-zero}
use warren_sdk_rs.Plan.{
  mask, in_net, subtract, precedes, insert_sorted, sort, Networks, IpNetwork, net4, net6,
  exclude_all, collect4, collect6, complement, Addr, v4, v6,
}
use warren_sdk_rs.Plan.Prefixes.{Aligned, Lawful}
use warren_sdk_rs.Plan.Leftover.{AllAligned, subtract-AllAligned, subtract-covers}

-- Sorting keeps what the networks cover and how they are aligned.
any-insert_sorted :
    (test : ℕ × ℕ → Bool) (x : ℕ × ℕ) (ys : List (ℕ × ℕ))
    → any test (insert_sorted x ys) ≡ test x || any test ys
unfolding any insert_sorted
any-insert_sorted test x [] = refl
any-insert_sorted test x (y ∷ ys) = ground (arith, any-insert_sorted test x ys)

any-sort : (test : ℕ × ℕ → Bool) (xs : List (ℕ × ℕ)) → any test (sort xs) ≡ any test xs
unfolding any sort
any-sort test [] = refl
any-sort test (x ∷ xs) = ground (arith, any-insert_sorted test x (sort xs), any-sort test xs)

insert_sorted-AllAligned :
    (w : ℕ) (x : ℕ × ℕ) (ys : List (ℕ × ℕ))
    → Aligned w x
    → AllAligned w ys
    → AllAligned w (insert_sorted x ys)
unfolding AllAligned insert_sorted
insert_sorted-AllAligned w x [] h hs = (h, tt)
insert_sorted-AllAligned w x (y ∷ ys) h (h', hs) = elim (Bool-cases (precedes x y)) [
  | inl e ↦ rw (insert_sorted, e) (h, (h', hs))
  | inr e ↦ rw (insert_sorted, e) (h', insert_sorted-AllAligned w x ys h hs)
]

sort-AllAligned : (w : ℕ) (xs : List (ℕ × ℕ)) → AllAligned w xs → AllAligned w (sort xs)
unfolding AllAligned sort
sort-AllAligned w [] h = tt
sort-AllAligned w (x ∷ xs) (h, hs) =
    insert_sorted-AllAligned w x (sort xs) h (sort-AllAligned w xs hs)

-- The whole address space.
whole-AllAligned : (w : ℕ) → AllAligned w ((0, 0) ∷ [])
unfolding AllAligned mask
whole-AllAligned w = (record { short = omega arith; low = pow-pos w; clear = refl }, tt)

whole-covers : (w a : ℕ) → any (in_net w a) ((0, 0) ∷ []) ≡ true
unfolding any in_net mask
whole-covers w a = ground (arith, bit_and-zero a)

unfoldable pub Fits : Addr → Type 0
Fits (v4 a) = a < 2 ^ 32
Fits (v6 a) = a < 2 ^ 128

module _ {N4 N6 : Type 0} (ip4 : Networks N4) (ip6 : Networks N6) where
  -- An address lies in a network of its family, by the source's own test.
  unfoldable pub covers : Addr → IpNetwork N4 N6 → Bool
  covers (v4 a) (net4 net) = in_net 32 a (ip4.network_address net, ip4.netmask net)
  covers (v4 a) (net6 net) = false
  covers (v6 a) (net4 net) = false
  covers (v6 a) (net6 net) = in_net 128 a (ip6.network_address net, ip6.netmask net)

  module _ (lawful4 : Lawful 32 ip4) (lawful6 : Lawful 128 ip6) where
    exclude_all-AllAligned :
        (exclude : List (IpNetwork N4 N6)) (nets4 nets6 : List (ℕ × ℕ))
        → AllAligned 32 nets4
        → AllAligned 128 nets6
        → AllAligned 32 (exclude_all ip4 ip6 exclude nets4 nets6).0
          × AllAligned 128 (exclude_all ip4 ip6 exclude nets4 nets6).1
    unfolding exclude_all
    exclude_all-AllAligned [] nets4 nets6 h4 h6 = (h4, h6)
    exclude_all-AllAligned (net4 net ∷ exclude) nets4 nets6 h4 h6 =
        exclude_all-AllAligned exclude _ nets6
          (subtract-AllAligned 32 (ip4.network_address net) ((lawful4.valid net).low)
            (ip4.netmask net) nets4 ((lawful4.valid net).short) h4)
          h6
    exclude_all-AllAligned (net6 net ∷ exclude) nets4 nets6 h4 h6 =
        exclude_all-AllAligned exclude nets4 _ h4 (
          subtract-AllAligned 128 (ip6.network_address net) ((lawful6.valid net).low)
            (ip6.netmask net) nets6 ((lawful6.valid net).short) h6)

    exclude_all-v4 :
        (a : ℕ) (exclude : List (IpNetwork N4 N6)) (nets4 nets6 : List (ℕ × ℕ))
        → a < 2 ^ 32
        → AllAligned 32 nets4
        → any (in_net 32 a) (exclude_all ip4 ip6 exclude nets4 nets6).0
          ≡ (any (in_net 32 a) nets4 && not (any (covers (v4 a)) exclude))
    unfolding exclude_all any covers
    exclude_all-v4 a [] nets4 nets6 ha h = ground arith
    exclude_all-v4 a (net4 net ∷ exclude) nets4 nets6 ha h =
        let base : ℕ = ip4.network_address net in
        let prefix : ℕ = ip4.netmask net in
        let low = (lawful4.valid net).low in
        let short = (lawful4.valid net).short in
        ground (
          arith,
          exclude_all-v4 a exclude (subtract 32 nets4 base prefix) nets6 ha
              (subtract-AllAligned 32 base low prefix nets4 short h),
          subtract-covers 32 base low prefix a nets4 short ha h,
        )
    exclude_all-v4 a (net6 net ∷ exclude) nets4 nets6 ha h = exclude_all-v4 a exclude nets4 _ ha h

    exclude_all-v6 :
        (a : ℕ) (exclude : List (IpNetwork N4 N6)) (nets4 nets6 : List (ℕ × ℕ))
        → a < 2 ^ 128
        → AllAligned 128 nets6
        → any (in_net 128 a) (exclude_all ip4 ip6 exclude nets4 nets6).1
          ≡ (any (in_net 128 a) nets6 && not (any (covers (v6 a)) exclude))
    unfolding exclude_all any covers
    exclude_all-v6 a [] nets4 nets6 ha h = ground arith
    exclude_all-v6 a (net4 net ∷ exclude) nets4 nets6 ha h = exclude_all-v6 a exclude _ nets6 ha h
    exclude_all-v6 a (net6 net ∷ exclude) nets4 nets6 ha h =
        let base : ℕ = ip6.network_address net in
        let prefix : ℕ = ip6.netmask net in
        let low = (lawful6.valid net).low in
        let short = (lawful6.valid net).short in
        ground (
          arith,
          exclude_all-v6 a exclude nets4 (subtract 128 nets6 base prefix) ha
              (subtract-AllAligned 128 base low prefix nets6 short h),
          subtract-covers 128 base low prefix a nets6 short ha h,
        )

    -- The networks that are collected cover what the pairs do, in their family alone.
    collect4-v4 :
        (a : ℕ) (nets : List (ℕ × ℕ))
        → AllAligned 32 nets
        → any (covers (v4 a)) (collect4 ip4 ip6 nets) ≡ any (in_net 32 a) nets
    unfolding any covers AllAligned collect4
    collect4-v4 a [] h = refl
    collect4-v4 a ((base, prefix) ∷ nets) (h, hs) =
        let (net, e, f, g) = lawful4.accepts base prefix h in
        rw (collect4, e, f, g) (ap (λ t. in_net 32 a (base, prefix) || t) (collect4-v4 a nets hs))

    collect4-v6 :
        (a : ℕ) (nets : List (ℕ × ℕ))
        → AllAligned 32 nets
        → any (covers (v6 a)) (collect4 ip4 ip6 nets) ≡ false
    unfolding any covers AllAligned collect4
    collect4-v6 a [] h = refl
    collect4-v6 a ((base, prefix) ∷ nets) (h, hs) =
        let (net, e, f, g) = lawful4.accepts base prefix h in
        rw (collect4, e) (collect4-v6 a nets hs)

    collect6-v4 :
        (a : ℕ) (nets : List (ℕ × ℕ))
        → AllAligned 128 nets
        → any (covers (v4 a)) (collect6 ip4 ip6 nets) ≡ false
    unfolding any covers AllAligned collect6
    collect6-v4 a [] h = refl
    collect6-v4 a ((base, prefix) ∷ nets) (h, hs) =
        let (net, e, f, g) = lawful6.accepts base prefix h in
        rw (collect6, e) (collect6-v4 a nets hs)

    collect6-v6 :
        (a : ℕ) (nets : List (ℕ × ℕ))
        → AllAligned 128 nets
        → any (covers (v6 a)) (collect6 ip4 ip6 nets) ≡ any (in_net 128 a) nets
    unfolding any covers AllAligned collect6
    collect6-v6 a [] h = refl
    collect6-v6 a ((base, prefix) ∷ nets) (h, hs) =
        let (net, e, f, g) = lawful6.accepts base prefix h in
        rw (collect6, e, f, g) (ap (λ t. in_net 128 a (base, prefix) || t) (collect6-v6 a nets hs))

    -- The networks of the complement cover an address exactly where none of the excluded does, in
    -- both families.
    pub complement-covers :
        (addr : Addr) (exclude : List (IpNetwork N4 N6))
        → Fits addr
        → any (covers addr) (complement ip4 ip6 exclude) ≡ not (any (covers addr) exclude)
    unfolding complement Fits
    complement-covers (v4 a) exclude h =
        let nets = exclude_all ip4 ip6 exclude ((0, 0) ∷ []) ((0, 0) ∷ []) in
        let (h4, h6) =
          exclude_all-AllAligned exclude _ _ (whole-AllAligned 32) (whole-AllAligned 128) in
        ground (
          arith,
          any-append (covers (v4 a)) (collect4 ip4 ip6 (sort nets.0))
              (collect6 ip4 ip6 (sort nets.1)),
          collect4-v4 a (sort nets.0) (sort-AllAligned 32 nets.0 h4),
          collect6-v4 a (sort nets.1) (sort-AllAligned 128 nets.1 h6),
          any-sort (in_net 32 a) nets.0,
          exclude_all-v4 a exclude ((0, 0) ∷ []) ((0, 0) ∷ []) h (whole-AllAligned 32),
          whole-covers 32 a,
        )
    complement-covers (v6 a) exclude h =
        let nets = exclude_all ip4 ip6 exclude ((0, 0) ∷ []) ((0, 0) ∷ []) in
        let (h4, h6) =
          exclude_all-AllAligned exclude _ _ (whole-AllAligned 32) (whole-AllAligned 128) in
        ground (
          arith,
          any-append (covers (v6 a)) (collect4 ip4 ip6 (sort nets.0))
              (collect6 ip4 ip6 (sort nets.1)),
          collect4-v6 a (sort nets.0) (sort-AllAligned 32 nets.0 h4),
          collect6-v6 a (sort nets.1) (sort-AllAligned 128 nets.1 h6),
          any-sort (in_net 128 a) nets.1,
          exclude_all-v6 a exclude ((0, 0) ∷ []) ((0, 0) ∷ []) h (whole-AllAligned 128),
          whole-covers 128 a,
        )
