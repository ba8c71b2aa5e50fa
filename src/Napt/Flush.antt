-- ===== src/Napt/Flush.antt =====
-- What `flush_family`, `flush_peer` and `set_external` of nat.rs forget, and what they keep.
use warren_sdk_rs.Prelude.{
  ℕ, ◌≡◌, ◌∙◌, refl, ap, inl, inr, Bool, true, false, not, ◌&&◌, ◌||◌, Option, none, some, List, [],
  ◌∷◌, arith, ◌==◌, ==_iff, if◌then◌else◌, Option-cases,
}
use warren_sdk_rs.Prelude.Map.{◌=?◌, nat_eq, bool_eq, list_eq, lookup, bool_beq}
use warren_sdk_rs.Ip.{is_ipv6}
use warren_sdk_rs.Napt.Types.{Mapping, EpochId, Napt}
use warren_sdk_rs.Napt.Table.{
  select, same_octets, remove_mapping, remove_all, flush_family, flush_peer, set_external,
}
use warren_sdk_rs.Napt.Maps.{IsMap, IsTable, remove_all-IsTable}
use warren_sdk_rs.Napt.Identity.{Identity, identity, identity_at, remove_mapping-identity}

-- The identifier stands in the list.
unfoldable pub listed : ℕ → List ℕ → Bool
listed id [] = false
listed id (x ∷ xs) = (x == id) || listed id xs

-- A mapping that passes the test `gone` is forgotten; any other is kept as it is.
unfoldable pub kept : (Identity → Bool) → Option Identity → Option Identity
kept gone none = none
kept gone (some i) = if gone i then none else some i

module _ {R T : Type 0} where
  remove_all-identity :
      (n : Napt R T) (ids : List ℕ) (k : ℕ)
      → identity_at (remove_all n ids) k ≡ (if listed k ids then none else identity_at n k)
  unfolding remove_all listed
  remove_all-identity n [] k = refl
  remove_all-identity n (id ∷ ids) k =
      ground
        (arith, remove_all-identity (remove_mapping n id) ids k, remove_mapping-identity n id k)

unfoldable pub tested : (Mapping → Bool) → Option Mapping → Bool
tested test none = false
tested test (some m) = test m

listed-select :
    (test : Mapping → Bool) (k : ℕ) (ms : List (ℕ × Mapping))
    → IsMap ms
    → listed k (select test ms) ≡ tested test (lookup k ms)
unfolding lookup select listed IsMap tested
listed-select test k [] u = refl
listed-select test k ((id, m) ∷ ms) u = ground (arith, listed-select test k ms u.1, ==_iff id k)

-- The mappings that `flush_family` forgets, and those that `flush_peer` forgets.
unfoldable pub of_family : Bool → Identity → Bool
of_family family i = (is_ipv6 i.internal.ip =? family) && not i.pinned

unfoldable pub of_peer : ℕ → Identity → Bool
of_peer peer i = (i.owner == peer) && not i.pinned

module _ {R T : Type 0} where
  flush-identity :
      (n : Napt R T) (test : Mapping → Bool) (gone : Identity → Bool) (k : ℕ)
      → IsMap n.mappings
      → ((m : Mapping) → test m ≡ gone (identity m))
      → identity_at (remove_all n (select test n.mappings)) k ≡ kept gone (identity_at n k)
  unfolding kept tested
  flush-identity n test gone k u reads =
      let e = remove_all-identity n (select test n.mappings) k in
      let l = listed-select test k n.mappings u in
      elim (Option-cases (lookup k n.mappings)) [
        | inl a ↦ ground (arith, e, l, a)
        | inr (m, a) ↦ ground (arith, e, l, a, reads m)
      ]

  -- On a table with one entry for an identifier `flush_family` forgets exactly the flows of the
  -- family: a mapping of the family that is not pinned is gone, and every other is left as it was
  -- but for its place in the recency list.
  pub flush_family-kept :
      (n : Napt R T) (family : Bool) (k : ℕ)
      → IsMap n.mappings
      → identity_at (flush_family n family) k ≡ kept (of_family family) (identity_at n k)
  unfolding flush_family of_family
  flush_family-kept n family k u = flush-identity n _ (of_family family) k u (λ m. refl)

  -- On a table with one entry for an identifier `flush_peer` forgets exactly the flows of the peer:
  -- its mappings that are not pinned are gone,
  -- and every other mapping is left as it was but for its place in the recency list.
  pub flush_peer-kept :
      (n : Napt R T) (peer k : ℕ)
      → IsMap n.mappings
      → identity_at (flush_peer n peer) k ≡ kept (of_peer peer) (identity_at n k)
  unfolding flush_peer of_peer
  flush_peer-kept n peer k u = flush-identity n _ (of_peer peer) k u (λ m. refl)

  flush_if-kept :
      (n : Napt R T) (test family : Bool) (k : ℕ)
      → IsMap n.mappings
      → identity_at (if test then flush_family n family else n) k
        ≡ (if test then kept (of_family family) (identity_at n k) else identity_at n k)
  flush_if-kept n true family k u = flush_family-kept n family k u
  flush_if-kept n false family k u = refl

  flush_if-IsTable :
      (n : Napt R T) (test family : Bool)
      → IsMap n.mappings
      → IsTable n.v6 (if test then flush_family n family else n)
  unfolding flush_family
  flush_if-IsTable n true family u =
      remove_all-IsTable n
        (select (λ m. (is_ipv6 m.internal.ip =? family) && not m.pinned) n.mappings)
        (record { maps = u; address = refl })
  flush_if-IsTable n false family u = record { maps = u; address = refl }

-- The flows of the first family where the first test holds, and of the second where the second does.
unfoldable pub flushed : Bool → Bool → Identity → Bool
flushed first second i = not i.pinned && (if is_ipv6 i.internal.ip then second else first)

kept_twice :
    (first second : Bool) (o : Option Identity)
    → (let o' = if first then kept (of_family false) o else o in
        if second then kept (of_family true) o' else o')
      ≡ kept (flushed first second) o
unfolding kept of_family flushed bool_beq
kept_twice first second none = ground arith
kept_twice first second (some i) = ground arith

module _ {R T : Type 0} where
  -- The mappings that a new epoch forgets.
  unfoldable pub of_epoch : Napt R T → EpochId → List ℕ → Option (List ℕ) → Identity → Bool
  unfolding flushed
  of_epoch n epoch v4 v6 =
      let same_exit = same_octets n.exit (some epoch.exit) in
      flushed (not (same_exit && same_octets n.v4 (some v4)))
        (not (same_exit && same_octets n.v6 v6))

  -- After `set_external` on a table with one entry for an identifier, the flows of a family that are
  -- not pinned are gone where the exit or the address of the family changed. Every other mapping is
  -- left as it was but for its place in the recency list, and a mapping that was not there is not made.
  pub set_external-kept :
      (n : Napt R T) (epoch : EpochId) (v4 : List ℕ) (v6 : Option (List ℕ)) (k : ℕ)
      → IsMap n.mappings
      → identity_at (set_external n epoch v4 v6) k ≡ kept (of_epoch n epoch v4 v6) (identity_at n k)
  unfolding set_external of_epoch
  set_external-kept n epoch v4 v6 k u =
      let same_exit = same_octets n.exit (some epoch.exit) in
      let first = not (same_exit && same_octets n.v4 (some v4)) in
      let second = not (same_exit && same_octets n.v6 v6) in
      let n' : Napt R T = if first then flush_family n false else n in
      let table : IsTable n.v6 n' = flush_if-IsTable n first false u in
      rw table.address (
        flush_if-kept n' second true k table.maps
        ∙ ap (λ o. if second then kept (of_family true) o else o) (flush_if-kept n first false k u)
        ∙ kept_twice first second (identity_at n k))
