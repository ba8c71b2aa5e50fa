-- ===== src/Napt/Identity.antt =====
-- A mapping but for its place in the recency list. The recency list changes nothing of it, and a removal
-- only the mapping removed.
use warren_sdk_rs.Prelude.{
  ℕ, ◌≡◌, ◌∙◌, refl, inl, inr, Bool, Option, none, some, List, arith, ◌==◌, ==_iff, if◌then◌else◌,
  Option-cases, Bool-cases,
}
use warren_sdk_rs.Prelude.Map.{
  nat_eq, pair_eq, triple_eq, lookup, insert, lookup-modify, lookup-remove,
}
use warren_sdk_rs.Napt.Types.{MapProto, proto_eq, addr_eq, SocketAddr, RemoteFlow, Mapping, Napt}
use warren_sdk_rs.Napt.Recency.{
  update, update?, previous_of, ends_with, link_newest, unlink_older, unlink_newer, unlink,
  touch_recency,
}
use warren_sdk_rs.Napt.Table.{drop_mapping, remove_mapping}

pub record Identity : Type 0 where
  pub owner : ℕ
  pub proto : MapProto
  pub internal : SocketAddr
  pub external_port : ℕ
  pub pinned : Bool
  pub remotes : List RemoteFlow
  pub last_seen : ℕ

abbrev pub identity : Mapping → Identity
identity m = record {
  owner = m.owner;
  proto = m.proto;
  internal = m.internal;
  external_port = m.external_port;
  pinned = m.pinned;
  remotes = m.remotes;
  last_seen = m.last_seen;
}

abbrev pub identity? : Option Mapping → Option Identity
identity? none = none
identity? (some m) = some (identity m)

module _ {R T : Type 0} where
  abbrev pub identity_at : Napt R T → ℕ → Option Identity
  identity_at n id = identity? (lookup id n.mappings)

  pub update-identity :
      (id : ℕ) (f : Mapping → Mapping) (n : Napt R T) (k : ℕ)
      → ((m : Mapping) → identity (f m) ≡ identity m)
      → identity_at (update id f n) k ≡ identity_at n k
  update-identity id f n k same = elim (Option-cases (lookup id n.mappings)) [
    | inl e ↦ ground (arith, lookup-modify id k f n.mappings, ==_iff id k)
    | inr (m, e) ↦ ground (arith, lookup-modify id k f n.mappings, same m, ==_iff id k)
  ]

  pub update?-identity :
      (id : Option ℕ) (f : Mapping → Mapping) (n : Napt R T) (k : ℕ)
      → ((m : Mapping) → identity (f m) ≡ identity m)
      → identity_at (update? id f n) k ≡ identity_at n k
  update?-identity none f n k same = refl
  update?-identity (some id) f n k same = update-identity id f n k same

  pub link_newest-identity :
      (n : Napt R T) (id k : ℕ) → identity_at (link_newest n id) k ≡ identity_at n k
  unfolding link_newest
  link_newest-identity n id k = elim (Option-cases (lookup id n.mappings)) [
    | inl e ↦ rw (e, link_newest) refl
    | inr (m, e) ↦ elim (Bool-cases m.pinned) [
      | inl p ↦ rw (e, p, link_newest) refl
      | inr p ↦
          let key : ℕ × MapProto = (m.owner, m.proto) in
          let n' : Napt R T = record n { recency = insert key (ends_with n key id) n.recency } in
          let set_newer : Mapping → Mapping = λ m. record m { newer = some id } in
          rw (e, p, link_newest)
            (update-identity id _ (update? (previous_of n key) set_newer n') k (λ m. refl)
              ∙ update?-identity (previous_of n key) set_newer n' k (λ m. refl))
    ]
  ]

  unlink_older-identity :
      (n : Napt R T) (key : ℕ × MapProto) (older newer : Option ℕ) (k : ℕ)
      → identity_at (unlink_older n key older newer).0 k ≡ identity_at n k
  unfolding unlink_older
  unlink_older-identity n key (some o) newer k = update-identity o _ n k (λ m. refl)
  unlink_older-identity n key none newer k = ground arith

  unlink_newer-identity :
      (n : Napt R T) (key : ℕ × MapProto) (older newer : Option ℕ) (k : ℕ)
      → identity_at (unlink_newer n key older newer) k ≡ identity_at n k
  unfolding unlink_newer
  unlink_newer-identity n key older (some next) k = update-identity next _ n k (λ m. refl)
  unlink_newer-identity n key older none k = ground arith

  pub unlink-identity : (n : Napt R T) (id k : ℕ) → identity_at (unlink n id) k ≡ identity_at n k
  unfolding unlink
  unlink-identity n id k = elim (Option-cases (lookup id n.mappings)) [
    | inl e ↦ rw (e, unlink) refl
    | inr (m, e) ↦
        let key : ℕ × MapProto = (m.owner, m.proto) in
        let n1 : Napt R T = update id (λ m. record m { older = none; newer = none }) n in
        rw (e, unlink)
          (ground (
            arith,
            update-identity id (λ m. record m { older = none; newer = none }) n k (λ m. refl),
            unlink_older-identity n1 key m.older m.newer k,
            unlink_newer-identity (unlink_older n1 key m.older m.newer).0 key m.older m.newer k,
          ))
  ]

  pub touch_recency-identity :
      (n : Napt R T) (id k : ℕ) → identity_at (touch_recency n id) k ≡ identity_at n k
  unfolding touch_recency
  touch_recency-identity n id k =
      ground (arith, link_newest-identity (unlink n id) id k, unlink-identity n id k)

  drop_mapping-identity :
      (n : Napt R T) (id : ℕ) (m : Mapping) (k : ℕ)
      → identity_at (drop_mapping n id m) k ≡ (if id == k then none else identity_at n k)
  unfolding drop_mapping
  drop_mapping-identity n id m k = ground (arith, lookup-remove id k n.mappings)

  pub remove_mapping-identity :
      (n : Napt R T) (id k : ℕ)
      → identity_at (remove_mapping n id) k ≡ (if id == k then none else identity_at n k)
  unfolding remove_mapping
  remove_mapping-identity n id k = elim (Option-cases (lookup id (unlink n id).mappings)) [
    | inl e ↦ rw (e, remove_mapping) (ground (arith, unlink-identity n id k, ==_iff id k))
    | inr (m, e) ↦
        rw (e, remove_mapping)
          (ground (arith, drop_mapping-identity (unlink n id) id m k, unlink-identity n id k))
  ]
