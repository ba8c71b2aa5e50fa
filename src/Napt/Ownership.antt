-- ===== src/Napt/Ownership.antt =====
-- Whose mapping a packet uses: `mapping_for_uplink` and `accept_downlink` of nat.rs.
use warren_sdk_rs.Prelude.{
  ℕ, ◌≡◌, ◌∙◌, ap, inl, inr, Option, none, some, arith, ◌==◌, ==_iff, Option-cases, Bool-cases,
}
use warren_sdk_rs.Prelude.Map.{nat_eq, bool_eq, pair_eq, triple_eq, lookup, lookup-insert}
use warren_sdk_rs.Ports.{alloc}
use warren_sdk_rs.Napt.Types.{MapProto, proto_eq, addr_eq, SocketAddr, NatDrop, Mapping, Napt}
use warren_sdk_rs.Napt.Table.{
  Answer, fresh_mapping, outbound_key, insert_mapping, enter_mapping, make_room, create_mapping,
  mapping_for_uplink,
}
use warren_sdk_rs.Napt.Identity.{Identity, identity, identity_at, link_newest-identity}

abbrev pub owner? : Option Identity → Option ℕ
owner? none = none
owner? (some i) = some i.owner

module _ {R T : Type 0} where
  -- An identifier that is answered is that of one of the peer's mappings.
  unfoldable pub Owned : ℕ → Answer ℕ × Napt R T → Type 0
  Owned peer (Answer.err d, n) = Unit
  Owned peer (Answer.ok id, n) = owner? (identity_at n id) ≡ some peer

  insert_mapping-identity :
      (n : Napt R T) (m : Mapping)
      → identity_at (insert_mapping n m).1 n.next_id ≡ some (identity m)
  unfolding insert_mapping
  insert_mapping-identity n m =
      ground (arith, ==_iff n.next_id n.next_id, lookup-insert n.next_id n.next_id m n.mappings)

  -- The mapping entered is the peer's, for the endpoint and the port asked for.
  enter_mapping-identity :
      (n : Napt R T) (peer : ℕ) (proto : MapProto) (internal : SocketAddr) (port now : ℕ)
      → (identity_at
            (enter_mapping n peer proto internal port now).1
            (enter_mapping n peer proto internal port now).0
          ≡ some (identity (fresh_mapping peer proto internal port now)))
  unfolding enter_mapping insert_mapping
  enter_mapping-identity n peer proto internal port now =
      let m = fresh_mapping peer proto internal port now in
      link_newest-identity (insert_mapping n m).1 n.next_id n.next_id ∙ insert_mapping-identity n m

  create_mapping-Owned :
      (gen_range : R → ℕ → ℕ × R) (n : Napt R T) (peer : ℕ) (proto : MapProto)
      (internal : SocketAddr) (now : ℕ)
      → Owned peer (create_mapping gen_range n peer proto internal now)
  unfolding create_mapping Owned
  create_mapping-Owned gen_range n peer proto internal now =
      if_room (make_room n peer proto).0 _ _ (
        if_port (alloc gen_range _ _ _).0 _ (λ p. enter_mapping _ peer proto internal p now)
          (λ p. ap owner? (enter_mapping-identity _ peer proto internal p now)))
    where
      if_room :
          (room : Answer (Unit {0})) (n1 : Napt R T) (x : Answer ℕ × Napt R T)
          → Owned peer x
          → Owned peer (elim room [ Answer.err d ↦ (Answer.err d, n1) | Answer.ok _ ↦ x ])
      if_room (Answer.ok _) n1 x o = o
      if_room (Answer.err d) n1 x o = tt

      if_port :
          (port : Option ℕ) (n2 : Napt R T) (f : ℕ → ℕ × Napt R T)
          → ((p : ℕ) → owner? (identity_at (f p).1 (f p).0) ≡ some peer)
          → Owned peer (elim port [
            | none ↦ (Answer.err NatDrop.port_exhausted, n2)
            | some p ↦ let (id, n3) = f p in (Answer.ok id, n3)
          ])
      if_port none n2 f o = tt
      if_port (some p) n2 f o = o p

  -- Where `mapping_for_uplink` answers a mapping, found or made, that mapping is in the table that it
  -- leaves, and its owner is the peer who sent the packet.
  pub mapping_for_uplink-Owned :
      (gen_range : R → ℕ → ℕ × R) (n : Napt R T) (peer : ℕ) (proto : MapProto)
      (internal : SocketAddr) (now : ℕ)
      → Owned peer (mapping_for_uplink gen_range n peer proto internal now)
  unfolding mapping_for_uplink Owned
  mapping_for_uplink-Owned gen_range n peer proto internal now =
      elim (Option-cases (lookup (outbound_key proto internal) n.outbound)) [
        | inl a ↦
            rw (a, mapping_for_uplink) (create_mapping-Owned gen_range n peer proto internal now)
        | inr (id, a) ↦ elim (Option-cases (lookup id n.mappings)) [
          | inl b ↦ rw (a, b, mapping_for_uplink) tt
          | inr (m, b) ↦ elim (Bool-cases (m.owner == peer)) [
            | inl same ↦
                rw (a, b, same, mapping_for_uplink) (ground (arith, b, same, ==_iff m.owner peer))
            | inr other ↦ rw (a, b, other, mapping_for_uplink) tt
          ]
        ]
      ]
