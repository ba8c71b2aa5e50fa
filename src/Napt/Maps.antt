-- ===== src/Napt/Maps.antt =====
-- The mappings stay a map, with one entry for an identifier, and the addresses outside stay what
-- they are, whatever is linked, unlinked or removed.
use warren_sdk_rs.Prelude.{
  ℕ, ◌≡◌, inl, inr, Option, none, some, List, [], ◌∷◌, arith, ==_iff, Option-cases,
}
use warren_sdk_rs.Prelude.Map.{nat_eq, lookup, insert, remove, modify, lookup-remove}
use warren_sdk_rs.Napt.Types.{MapProto, Mapping, Napt}
use warren_sdk_rs.Napt.Recency.{update, unlink_older, unlink_newer, unlink}
use warren_sdk_rs.Napt.Table.{drop_mapping, remove_mapping, remove_all}

-- A map has one entry for a key.
unfoldable pub IsMap : List (ℕ × Mapping) → Type 0
IsMap [] = Unit
IsMap ((id, m) ∷ ms) = (lookup id ms ≡ none) × IsMap ms

remove-IsMap : (k : ℕ) (ms : List (ℕ × Mapping)) → IsMap ms → IsMap (remove k ms)
unfolding remove IsMap
remove-IsMap k [] u = tt
remove-IsMap k ((id, m) ∷ ms) u = ground (arith, lookup-remove k id ms, remove-IsMap k ms u.1)

insert-IsMap : (k : ℕ) (m : Mapping) (ms : List (ℕ × Mapping)) → IsMap ms → IsMap (insert k m ms)
unfolding insert IsMap
insert-IsMap k m ms u = (ground (arith, lookup-remove k k ms, ==_iff k k), remove-IsMap k ms u)

modify-IsMap :
    (k : ℕ) (f : Mapping → Mapping) (ms : List (ℕ × Mapping)) → IsMap ms → IsMap (modify k f ms)
unfolding modify
modify-IsMap k f ms u = elim (Option-cases (lookup k ms)) [
  | inl e ↦ rw (e, modify) u
  | inr (m, e) ↦ rw (e, modify) (insert-IsMap k (f m) ms u)
]

module _ {R T : Type 0} where
  -- The mappings are a map, and the second address is `v6`.
  pub record IsTable (v6 : Option (List ℕ)) (n : Napt R T) : Type 0 where
    pub maps : IsMap n.mappings
    pub address : n.v6 ≡ v6

  update-IsTable :
      {v6 : Option (List ℕ)} (id : ℕ) (f : Mapping → Mapping) (n : Napt R T)
      → IsTable v6 n
      → IsTable v6 (update id f n)
  update-IsTable id f n t = record {
    maps = modify-IsMap id f n.mappings t.maps;
    address = t.address;
  }

  unlink_older-IsTable :
      {v6 : Option (List ℕ)} (n : Napt R T) (key : ℕ × MapProto) (older newer : Option ℕ)
      → IsTable v6 n
      → IsTable v6 (unlink_older n key older newer).0
  unfolding unlink_older
  unlink_older-IsTable n key (some o) newer t = update-IsTable o _ n t
  unlink_older-IsTable n key none newer t = ground (arith, t.maps, t.address)

  unlink_newer-IsTable :
      {v6 : Option (List ℕ)} (n : Napt R T) (key : ℕ × MapProto) (older newer : Option ℕ)
      → IsTable v6 n
      → IsTable v6 (unlink_newer n key older newer)
  unfolding unlink_newer
  unlink_newer-IsTable n key older (some next) t = update-IsTable next _ n t
  unlink_newer-IsTable n key older none t = ground (arith, t.maps, t.address)

  unlink-IsTable :
      {v6 : Option (List ℕ)} (n : Napt R T) (id : ℕ) → IsTable v6 n → IsTable v6 (unlink n id)
  unfolding unlink
  unlink-IsTable n id t = elim (Option-cases (lookup id n.mappings)) [
    | inl e ↦ rw (e, unlink) t
    | inr (m, e) ↦
        let key : ℕ × MapProto = (m.owner, m.proto) in
        let n1 : Napt R T = update id (λ m. record m { older = none; newer = none }) n in
        let t1 = update-IsTable id (λ m. record m { older = none; newer = none }) n t in
        let t2 = unlink_older-IsTable n1 key m.older m.newer t1 in
        rw (e, unlink)
          (ground (
            arith,
            t2,
            unlink_newer-IsTable (unlink_older n1 key m.older m.newer).0 key m.older m.newer t2,
          ))
  ]

  drop_mapping-IsTable :
      {v6 : Option (List ℕ)} (n : Napt R T) (id : ℕ) (m : Mapping)
      → IsTable v6 n
      → IsTable v6 (drop_mapping n id m)
  unfolding drop_mapping
  drop_mapping-IsTable n id m t = ground (arith, remove-IsMap id n.mappings t.maps, t.address)

  remove_mapping-IsTable :
      {v6 : Option (List ℕ)} (n : Napt R T) (id : ℕ)
      → IsTable v6 n
      → IsTable v6 (remove_mapping n id)
  unfolding remove_mapping
  remove_mapping-IsTable n id t =
      let u = unlink-IsTable n id t in
      elim (Option-cases (lookup id (unlink n id).mappings)) [
        | inl e ↦ rw (e, remove_mapping) u
        | inr (m, e) ↦ rw (e, remove_mapping) (drop_mapping-IsTable (unlink n id) id m u)
      ]

  pub remove_all-IsTable :
      {v6 : Option (List ℕ)} (n : Napt R T) (ids : List ℕ)
      → IsTable v6 n
      → IsTable v6 (remove_all n ids)
  unfolding remove_all
  remove_all-IsTable n [] t = t
  remove_all-IsTable n (id ∷ ids) t =
      remove_all-IsTable (remove_mapping n id) ids (remove_mapping-IsTable n id t)
