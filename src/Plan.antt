-- ===== src/Plan.antt =====
-- crates/warren-bolthole-core/src/plan.rs: the address plan of the peers, and the networks that are left
-- where some are excluded. An address is the number of its octets; the width `w` of that number is 32
-- or 128, for the two copies that the source has of each function. The types of networks belong to
-- another crate: `N4` and `N6` with their operations.
pub mod Prefixes
pub mod Subtract
pub mod Leftover
pub mod Complement
pub mod Peers
use Prim.Native.Nat.{bit_and, bit_or, bit_xor}
use warren_sdk_rs.Prelude.{
  ℕ, zero, suc, ◌+◌, ◌-◌, ◌*◌, ◌%◌, ◌^◌, Bool, true, false, not, ◌&&◌, ◌||◌, Option, none, some,
  List, [], ◌∷◌, ◌++◌, ltb, leb, ◌==◌, if◌then◌else◌,
}
use warren_sdk_rs.Prelude.Outcomes.{Result, ok, err}

pub data Addr : Type 0 where
  v4 v6 : ℕ → Addr

pub data PlanError : Type 0 where
  tunnel_pool_overlap wrong_family subnet_too_small index_out_of_range : PlanError

-- `mask32` and `mask128`, for a prefix of at most `w` bits. The shift drops what passes `w` bits.
unfoldable pub mask : ℕ → ℕ → ℕ
mask w prefix = if prefix == 0 then 0 else (2 ^ w - 1) * 2 ^ (w - prefix) % 2 ^ w

-- `in_v4` and `in_v6`.
unfoldable pub in_net : ℕ → ℕ → ℕ × ℕ → Bool
unfolding mask
in_net w addr (base, prefix) = bit_and addr (mask w prefix) == bit_and base (mask w prefix)

-- `(base & mask(length)) ^ (1 << (w - length))`.
unfoldable pub sibling : ℕ → ℕ → ℕ → ℕ
unfolding mask
sibling w base length = bit_xor (bit_and base (mask w length)) (2 ^ (w - length))

-- The loop over the lengths, of which `n` are left.
unfoldable pub siblings : ℕ → ℕ → ℕ → ℕ → List (ℕ × ℕ)
unfolding sibling
siblings w base length zero = []
siblings w base length (suc n) = (sibling w base length, length) ∷ siblings w base (length + 1) n

-- What one network leaves.
unfoldable pub cut : ℕ → ℕ → ℕ → ℕ × ℕ → List (ℕ × ℕ)
unfolding mask siblings
cut w base prefix (net_base, net_prefix) =
    if ltb prefix net_prefix || not (bit_and base (mask w net_prefix) == net_base)
    then (if not (
          leb prefix net_prefix
          && (bit_and net_base (mask w prefix) == bit_and base (mask w prefix)))
        then (net_base, net_prefix) ∷ []
        else [])
    else siblings w base (net_prefix + 1) (prefix - net_prefix)

-- `subtract32` and `subtract128`.
unfoldable pub subtract : ℕ → List (ℕ × ℕ) → ℕ → ℕ → List (ℕ × ℕ)
unfolding cut
subtract w [] base prefix = []
subtract w (net ∷ networks) base prefix = cut w base prefix net ++ subtract w networks base prefix

-- `sort_unstable`, on pairs in their lexicographic order.
unfoldable pub precedes : ℕ × ℕ → ℕ × ℕ → Bool
precedes (a, p) (b, q) = ltb a b || ((a == b) && leb p q)

unfoldable pub insert_sorted : ℕ × ℕ → List (ℕ × ℕ) → List (ℕ × ℕ)
unfolding precedes
insert_sorted x [] = x ∷ []
insert_sorted x (y ∷ ys) =
    let rest = insert_sorted x ys in if precedes x y then x ∷ (y ∷ ys) else y ∷ rest

unfoldable pub sort : List (ℕ × ℕ) → List (ℕ × ℕ)
unfolding insert_sorted
sort [] = []
sort (x ∷ xs) = insert_sorted x (sort xs)

-- What the program uses of a type of networks.
pub record Networks (N : Type 0) : Type 0 where
  pub new : ℕ → ℕ → Option N
  pub network_address : N → ℕ
  pub netmask : N → ℕ
  pub contains : N → ℕ → Bool

pub data IpNetwork (N4 N6 : Type 0) : Type 0 where
  net4 : N4 → IpNetwork N4 N6
  net6 : N6 → IpNetwork N4 N6

module _ {N4 N6 : Type 0} (ip4 : Networks N4) (ip6 : Networks N6) where
  -- The loop over the exclusions, with the two lists that it keeps.
  unfoldable pub exclude_all :
      List (IpNetwork N4 N6) → List (ℕ × ℕ) → List (ℕ × ℕ) → List (ℕ × ℕ) × List (ℕ × ℕ)
  unfolding subtract
  exclude_all [] nets4 nets6 = (nets4, nets6)
  exclude_all (net4 net ∷ exclude) nets4 nets6 =
      exclude_all exclude (subtract 32 nets4 (ip4.network_address net) (ip4.netmask net)) nets6
  exclude_all (net6 net ∷ exclude) nets4 nets6 =
      exclude_all exclude nets4 (subtract 128 nets6 (ip6.network_address net) (ip6.netmask net))

  -- The loops over the results: a network that `new` refuses is left out.
  unfoldable pub collect4 : List (ℕ × ℕ) → List (IpNetwork N4 N6)
  collect4 [] = []
  collect4 ((base, prefix) ∷ nets) =
      let rest = collect4 nets in
      elim (ip4.new base prefix) [ none ↦ rest | some net ↦ net4 net ∷ rest ]

  unfoldable pub collect6 : List (ℕ × ℕ) → List (IpNetwork N4 N6)
  collect6 [] = []
  collect6 ((base, prefix) ∷ nets) =
      let rest = collect6 nets in
      elim (ip6.new base prefix) [ none ↦ rest | some net ↦ net6 net ∷ rest ]

  unfoldable pub complement : List (IpNetwork N4 N6) → List (IpNetwork N4 N6)
  unfolding exclude_all sort collect4 collect6
  complement exclude =
      let (nets4, nets6) = exclude_all exclude ((0, 0) ∷ []) ((0, 0) ∷ []) in
      collect4 (sort nets4) ++ collect6 (sort nets6)
