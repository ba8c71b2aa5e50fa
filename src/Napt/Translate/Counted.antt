-- ===== src/Napt/Translate/Counted.antt =====
-- Nothing on the packet path but `translate_uplink` and `translate_downlink` themselves bumps a
-- counter.
use warren_sdk_rs.Prelude.{
  ℕ, ◌≡◌, ◌∙◌, refl, inl, inr, Bool, true, false, Option, none, some, arith, Option-cases,
  Bool-cases,
}
use warren_sdk_rs.Prelude.Map.{nat_eq, triple_eq, pair_eq, insert, lookup}
use warren_sdk_rs.Ip.{IpAddr}
use warren_sdk_rs.Ports.{alloc}
use warren_sdk_rs.Napt.Types.{MapProto, proto_eq, addr_eq, SocketAddr, NatDrop, Mapping, Napt}
use warren_sdk_rs.Napt.Flow.{touch_flows}
use warren_sdk_rs.Napt.Recency.{
  oldest_of, update, update?, previous_of, ends_with, link_newest, unlink_older, unlink_newer,
  unlink, touch_recency,
}
use warren_sdk_rs.Napt.Table.{
  Answer, insert_mapping, drop_mapping, remove_mapping, make_room, enter_mapping, fresh_mapping,
  create_mapping, mapping_for_uplink,
}
use warren_sdk_rs.Napt.Translate.Touch.{touch_mapping, touch_uplink, accept_downlink}

module _ {R T : Type 0} where
  update?-counters :
      (id : Option ℕ) (f : Mapping → Mapping) (n : Napt R T)
      → (update? id f n).counters ≡ n.counters
  update?-counters none f n = refl
  update?-counters (some id) f n = refl

  link_newest-counters : (n : Napt R T) (id : ℕ) → (link_newest n id).counters ≡ n.counters
  unfolding link_newest
  link_newest-counters n id = elim (Option-cases (lookup id n.mappings)) [
    | inl e ↦ rw (e, link_newest) refl
    | inr (m, e) ↦ elim (Bool-cases m.pinned) [
      | inl p ↦ rw (e, p, link_newest) refl
      | inr p ↦
          rw (e, p, link_newest)
            (let key : ℕ × MapProto = (m.owner, m.proto) in
              update?-counters (previous_of n key) (λ m. record m { newer = some id })
                (record n { recency = insert key (ends_with n key id) n.recency }))
    ]
  ]

  unlink_older-counters :
      (n : Napt R T) (key : ℕ × MapProto) (older newer : Option ℕ)
      → (unlink_older n key older newer).0.counters ≡ n.counters
  unfolding unlink_older
  unlink_older-counters n key (some o) newer = refl
  unlink_older-counters n key none newer = ground arith

  unlink_newer-counters :
      (n : Napt R T) (key : ℕ × MapProto) (older newer : Option ℕ)
      → (unlink_newer n key older newer).counters ≡ n.counters
  unfolding unlink_newer
  unlink_newer-counters n key older (some next) = refl
  unlink_newer-counters n key older none = ground arith

  unlink-counters : (n : Napt R T) (id : ℕ) → (unlink n id).counters ≡ n.counters
  unfolding unlink
  unlink-counters n id = elim (Option-cases (lookup id n.mappings)) [
    | inl e ↦ rw (e, unlink) refl
    | inr (m, e) ↦
        let key : ℕ × MapProto = (m.owner, m.proto) in
        let n1 : Napt R T = update id (λ m. record m { older = none; newer = none }) n in
        rw (e, unlink)
          (ground (
            arith,
            unlink_older-counters n1 key m.older m.newer,
            unlink_newer-counters (unlink_older n1 key m.older m.newer).0 key m.older m.newer,
          ))
  ]

  touch_recency-counters : (n : Napt R T) (id : ℕ) → (touch_recency n id).counters ≡ n.counters
  unfolding touch_recency
  touch_recency-counters n id =
      ground (arith, link_newest-counters (unlink n id) id, unlink-counters n id)

  drop_mapping-counters :
      (n : Napt R T) (id : ℕ) (m : Mapping) → (drop_mapping n id m).counters ≡ n.counters
  unfolding drop_mapping
  drop_mapping-counters n id m = ground arith

  remove_mapping-counters : (n : Napt R T) (id : ℕ) → (remove_mapping n id).counters ≡ n.counters
  unfolding remove_mapping
  remove_mapping-counters n id = elim (Option-cases (lookup id (unlink n id).mappings)) [
    | inl e ↦ rw (e, remove_mapping) (unlink-counters n id)
    | inr (m, e) ↦
        rw (e, remove_mapping) (drop_mapping-counters (unlink n id) id m ∙ unlink-counters n id)
  ]

  make_room-counters :
      (n : Napt R T) (peer : ℕ) (proto : MapProto)
      → (make_room n peer proto).1.counters ≡ n.counters
  unfolding make_room
  make_room-counters n peer proto = elim (Option-cases (oldest_of n peer proto)) [
    | inl e ↦ rw (e, make_room) (ground arith)
    | inr (victim, e) ↦ rw (e, make_room) (ground (arith, remove_mapping-counters n victim))
  ]

  enter_mapping-counters :
      (n : Napt R T) (peer : ℕ) (proto : MapProto) (internal : SocketAddr) (port now : ℕ)
      → (enter_mapping n peer proto internal port now).1.counters ≡ n.counters
  unfolding enter_mapping insert_mapping
  enter_mapping-counters n peer proto internal port now =
      link_newest-counters (insert_mapping n (fresh_mapping peer proto internal port now)).1
        n.next_id

  touch_mapping-counters :
      (n : Napt R T) (id : ℕ) (m : Mapping) (remote : IpAddr) (port flags now : ℕ) (uplink : Bool)
      → (touch_mapping n id m remote port flags now uplink).counters ≡ n.counters
  unfolding touch_mapping
  touch_mapping-counters n id m remote port flags now uplink = ground (
    arith,
    touch_recency-counters
        (update id
          (λ k. record k {
            remotes =
                (touch_flows n.config.remotes_per_mapping m.remotes remote port m.proto flags now
                  uplink).0;
            last_seen = now;
          })
          n)
        id,
  )

  pub touch_uplink-counters :
      (n : Napt R T) (id : ℕ) (remote : IpAddr) (port flags now : ℕ)
      → (touch_uplink n id remote port flags now).counters ≡ n.counters
  unfolding touch_uplink
  touch_uplink-counters n id remote port flags now = elim (Option-cases (lookup id n.mappings)) [
    | inl e ↦ rw (e, touch_uplink) refl
    | inr (m, e) ↦ rw (e, touch_uplink) (touch_mapping-counters n id m remote port flags now true)
  ]

  pub accept_downlink-counters :
      (n : Napt R T) (id : ℕ) (remote : IpAddr) (port flags now : ℕ)
      → (accept_downlink n id remote port flags now).1.counters ≡ n.counters
  unfolding accept_downlink
  accept_downlink-counters n id remote port flags now = elim (Option-cases (lookup id n.mappings)) [
    | inl e ↦ rw (e, accept_downlink) refl
    | inr (m, e) ↦
        rw (e, accept_downlink)
          (ground (arith, touch_mapping-counters n id m remote port flags now false))
  ]

  create_mapping-counters :
      (gen_range : R → ℕ → ℕ × R) (n : Napt R T) (peer : ℕ) (proto : MapProto)
      (internal : SocketAddr) (now : ℕ)
      → (create_mapping gen_range n peer proto internal now).1.counters ≡ n.counters
  unfolding create_mapping
  create_mapping-counters gen_range n peer proto internal now =
      if_room (make_room n peer proto).0 _ _ (make_room-counters n peer proto) (
        if_port (alloc gen_range _ _ _).0 _ (λ p. enter_mapping _ peer proto internal p now)
          (make_room-counters n peer proto)
          (λ p.
            enter_mapping-counters _ peer proto internal p now ∙ make_room-counters n peer proto))
    where
      if_room :
          (room : Answer (Unit {0})) (n1 : Napt R T) (x : Answer ℕ × Napt R T)
          → n1.counters ≡ n.counters
          → x.1.counters ≡ n.counters
          → (let y : Answer ℕ × Napt R T = elim room [
            | Answer.err d ↦ (Answer.err d, n1)
            | Answer.ok _ ↦ x
          ] in
              y.1.counters ≡ n.counters)
      if_room (Answer.ok _) n1 x a b = b
      if_room (Answer.err d) n1 x a b = a

      if_port :
          (port : Option ℕ) (n2 : Napt R T) (f : ℕ → ℕ × Napt R T)
          → n2.counters ≡ n.counters
          → ((p : ℕ) → (f p).1.counters ≡ n.counters)
          → (let y : Answer ℕ × Napt R T = elim port [
            | none ↦ (Answer.err NatDrop.port_exhausted, n2)
            | some p ↦ let (id, n3) = f p in (Answer.ok id, n3)
          ] in
              y.1.counters ≡ n.counters)
      if_port none n2 f a b = a
      if_port (some p) n2 f a b = b p

  pub mapping_for_uplink-counters :
      (gen_range : R → ℕ → ℕ × R) (n : Napt R T) (peer : ℕ) (proto : MapProto)
      (internal : SocketAddr) (now : ℕ)
      → (mapping_for_uplink gen_range n peer proto internal now).1.counters ≡ n.counters
  unfolding mapping_for_uplink
  mapping_for_uplink-counters gen_range n peer proto internal now =
      ground (arith, create_mapping-counters gen_range n peer proto internal now)
