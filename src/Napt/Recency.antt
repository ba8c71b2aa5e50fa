-- ===== src/Napt/Recency.antt =====
-- The recency lists of nat.rs: one doubly linked list of mappings for each peer and protocol,
-- threaded through the mappings, with its two ends in `recency`.
use warren_sdk_rs.Prelude.{
  ℕ, Bool, true, false, ◌||◌, not, Option, none, some, is_some, if◌then◌else◌,
}
use warren_sdk_rs.Prelude.Map.{nat_eq, pair_eq, lookup, insert, remove, modify}
use warren_sdk_rs.Napt.Types.{MapProto, proto_eq, Mapping, Napt}

module _ {R T : Type 0} where
  unfoldable pub oldest_of : Napt R T → ℕ → MapProto → Option ℕ
  oldest_of n peer proto = elim (lookup (peer, proto) n.recency) [
    | none ↦ none
    | some (oldest, newest) ↦ some oldest
  ]

  -- `if let Some(mapping) = self.mappings.get_mut(&id) { ... }`.
  abbrev pub update : ℕ → (Mapping → Mapping) → Napt R T → Napt R T
  update id f n = record n { mappings = modify id f n.mappings }

  -- The same where the identifier is optional.
  abbrev pub update? : Option ℕ → (Mapping → Mapping) → Napt R T → Napt R T
  update? none f n = n
  update? (some id) f n = update id f n

  -- The mapping that was the most recent, and the ends once `id` is.
  abbrev pub previous_of : Napt R T → ℕ × MapProto → Option ℕ
  previous_of n key = elim (lookup key n.recency) [
    | none ↦ none
    | some (oldest, newest) ↦ some newest
  ]

  abbrev pub ends_with : Napt R T → ℕ × MapProto → ℕ → ℕ × ℕ
  ends_with n key id = elim (lookup key n.recency) [
    | none ↦ (id, id)
    | some (oldest, newest) ↦ (oldest, id)
  ]

  unfoldable pub link_newest : Napt R T → ℕ → Napt R T
  link_newest n id = elim (lookup id n.mappings) [
    | none ↦ n
    | some m ↦
        let key : ℕ × MapProto = (m.owner, m.proto) in
        let previous = previous_of n key in
        let n' = record n { recency = insert key (ends_with n key id) n.recency } in
        if m.pinned
        then n
        else update id (λ m. record m { older = previous; newer = none })
            (update? previous (λ m. record m { newer = some id }) n')
  ]

  -- What the older neighbour, or the end of the list, becomes; true where the list is gone.
  unfoldable pub unlink_older : Napt R T → ℕ × MapProto → Option ℕ → Option ℕ → Napt R T × Bool
  unlink_older n key (some o) newer = (update o (λ m. record m { newer = newer }) n, false)
  unlink_older n key none newer = elim (lookup key n.recency) [
    | none ↦ (n, false)
    | some (oldest, newest) ↦ elim newer [
      | some next ↦ (record n { recency = insert key (next, newest) n.recency }, false)
      | none ↦ (record n { recency = remove key n.recency }, true)
    ]
  ]

  unfoldable pub unlink_newer : Napt R T → ℕ × MapProto → Option ℕ → Option ℕ → Napt R T
  unlink_newer n key older (some next) = update next (λ m. record m { older = older }) n
  unlink_newer n key older none = elim (lookup key n.recency) [
    | none ↦ n
    | some (oldest, newest) ↦ elim older [
      | none ↦ n
      | some o ↦ record n { recency = insert key (oldest, o) n.recency }
    ]
  ]

  unfoldable pub unlink : Napt R T → ℕ → Napt R T
  unlink n id = elim (lookup id n.mappings) [
    | none ↦ n
    | some m ↦
        let key : ℕ × MapProto = (m.owner, m.proto) in
        let n' = update id (λ m. record m { older = none; newer = none }) n in
        let (n'', gone) = unlink_older n' key m.older m.newer in
        if m.pinned then n else if gone then n'' else unlink_newer n'' key m.older m.newer
  ]

  unfoldable pub touch_recency : Napt R T → ℕ → Napt R T
  touch_recency n id = elim (lookup id n.mappings) [
    | none ↦ n
    | some m ↦ if m.pinned || not (is_some m.newer) then n else link_newest (unlink n id) id
  ]
