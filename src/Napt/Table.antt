-- ===== src/Napt/Table.antt =====
-- The mapping table of nat.rs: how mappings are made, found and forgotten.
use warren_sdk_rs.Prelude.{
  ℕ, ◌+◌, ◌-◌, Bool, true, false, not, ◌&&◌, ◌||◌, Option, none, some, List, [], ◌∷◌, ltb, leb,
  ◌==◌, if◌then◌else◌,
}
use warren_sdk_rs.Prelude.Map.{
  ◌=?◌, nat_eq, bool_eq, list_eq, pair_eq, triple_eq, lookup, insert, remove, modify,
}
use warren_sdk_rs.Ip.{IpAddr, is_ipv6}
use warren_sdk_rs.Ports.{PortAllocator, ReserveError, alloc, release, ports, identifiers}
use warren_sdk_rs.Napt.Types.{
  MapProto, proto_eq, addr_eq, SocketAddr, EpochId, NatDrop, no_mapping, source_not_owned,
  port_exhausted, peer_cap, NatConfig, Mapping, Snapshot, Napt,
}
use warren_sdk_rs.Napt.Flow.{initial_timeout}
use warren_sdk_rs.Napt.Recency.{oldest_of, link_newest, unlink}

-- A result beside the state that the call leaves, also where it refuses.
pub data Answer (A : Type 0) : Type 0 where
  ok : A → Answer A
  err : NatDrop → Answer A

pub data Added : Type 0 where
  added : ℕ → Added
  target_not_owned : Added
  reserve_failed : ReserveError → Added

abbrev pub outbound_key : MapProto → SocketAddr → MapProto × IpAddr × ℕ
outbound_key proto internal = (proto, internal.ip, internal.port)

abbrev pub inbound_key : MapProto → Bool → ℕ → MapProto × Bool × ℕ
inbound_key proto family port = (proto, family, port)

-- A heap entry goes before the later ones.
unfoldable pub heap_push : ℕ × ℕ → List (ℕ × ℕ) → List (ℕ × ℕ)
heap_push (t, id) [] = (t, id) ∷ []
heap_push (t, id) ((t', id') ∷ heap) =
    if ltb t t' || ((t == t') && leb id id')
    then (t, id) ∷ (t', id') ∷ heap
    else (t', id') ∷ heap_push (t, id) heap

unfoldable pub empty_counters : Snapshot
empty_counters = record {
  uplink_translated = 0;
  downlink_translated = 0;
  uplink_dropped = 0;
  downlink_dropped = 0;
  source_not_owned = 0;
  no_mapping = 0;
  port_exhausted = 0;
  peer_cap = 0;
  fragment = 0;
  v6_extension_header = 0;
  unsupported_protocol = 0;
  malformed = 0;
  family_unavailable = 0;
}

-- The identifiers of the mappings that pass the test.
unfoldable pub select : (Mapping → Bool) → List (ℕ × Mapping) → List ℕ
select test [] = []
select test ((id, m) ∷ ms) = let rest = select test ms in if test m then id ∷ rest else rest

abbrev pub same_octets : Option (List ℕ) → Option (List ℕ) → Bool
same_octets none none = true
same_octets (some a) (some b) = a =? b
same_octets _ _ = false

abbrev pub fresh_mapping : ℕ → MapProto → SocketAddr → ℕ → ℕ → Mapping
fresh_mapping peer proto internal port now = record {
  owner = peer;
  proto = proto;
  internal = internal;
  external_port = port;
  remotes = [];
  last_seen = now;
  pinned = false;
  older = none;
  newer = none;
}

module _ {R T : Type 0} where
  unfoldable pub with_rng : NatConfig → T → R → Napt R T
  unfolding empty_counters
  with_rng config no_peers rng = record {
    config = config;
    ownership = no_peers;
    exit = none;
    epoch = none;
    v4 = none;
    v6 = none;
    mappings = [];
    recency = [];
    outbound = [];
    inbound = [];
    peer_counts = [];
    ports = λ family proto. elim proto [
      | MapProto.icmp ↦ identifiers
      | _ ↦ ports config.pool_start config.pool_end
    ];
    expiry = [];
    next_id = 1;
    counters = empty_counters;
    rng = rng;
  }

  pub set_ownership : Napt R T → T → Napt R T
  set_ownership n table = record n { ownership = table }

  abbrev pub set_allocator : Bool → MapProto → PortAllocator → Napt R T → Napt R T
  set_allocator family proto a n = record n {
    ports = λ f p. if (family =? f) && (proto =? p) then a else n.ports f p;
  }

  unfoldable pub insert_mapping : Napt R T → Mapping → ℕ × Napt R T
  insert_mapping n m =
      let id = n.next_id in
      (
        id,
        record n {
          next_id = id + 1;
          outbound = insert (outbound_key m.proto m.internal) id n.outbound;
          inbound =
              insert (inbound_key m.proto (is_ipv6 m.internal.ip) m.external_port) id n.inbound;
          mappings = insert id m n.mappings;
        },
      )

  -- The part of `remove_mapping` after the recency list: the mapping `m` leaves the tables.
  unfoldable pub drop_mapping : Napt R T → ℕ → Mapping → Napt R T
  drop_mapping n id m =
      let family = is_ipv6 m.internal.ip in
      let n' = record n {
        mappings = remove id n.mappings;
        outbound = remove (outbound_key m.proto m.internal) n.outbound;
        inbound = remove (inbound_key m.proto family m.external_port) n.inbound;
      } in
      let key : ℕ × MapProto = (m.owner, m.proto) in
      let n'' =
        set_allocator family m.proto (release (n.ports family m.proto) m.external_port) n' in
      if m.pinned
      then n'
      else record n'' { peer_counts = modify key (λ count. count - 1) n''.peer_counts }

  unfoldable pub remove_mapping : Napt R T → ℕ → Napt R T
  unfolding drop_mapping
  remove_mapping n id =
      let n' = unlink n id in
      elim (lookup id n'.mappings) [ none ↦ n' | some m ↦ drop_mapping n' id m ]

  unfoldable pub remove_all : Napt R T → List ℕ → Napt R T
  remove_all n [] = n
  remove_all n (id ∷ ids) = remove_all (remove_mapping n id) ids

  unfoldable pub flush_family : Napt R T → Bool → Napt R T
  unfolding remove_all select
  flush_family n family =
      remove_all n (select (λ m. (is_ipv6 m.internal.ip =? family) && not m.pinned) n.mappings)

  unfoldable pub flush_peer : Napt R T → ℕ → Napt R T
  unfolding remove_all select
  flush_peer n peer = remove_all n (select (λ m. (m.owner == peer) && not m.pinned) n.mappings)

  unfoldable pub set_external : Napt R T → EpochId → List ℕ → Option (List ℕ) → Napt R T
  set_external n epoch v4 v6 =
      let same_exit = same_octets n.exit (some epoch.exit) in
      let n' = if not (same_exit && same_octets n.v4 (some v4)) then flush_family n false else n in
      let n'' = if not (same_exit && same_octets n'.v6 v6) then flush_family n' true else n' in
      record n'' { exit = some epoch.exit; epoch = some epoch; v4 = some v4; v6 = v6 }

  unfoldable pub per_peer_cap : Napt R T → MapProto → ℕ
  per_peer_cap n MapProto.icmp = n.config.per_peer_identifiers
  per_peer_cap n proto = n.config.per_peer_mappings

  abbrev pub count_of : Napt R T → ℕ → MapProto → ℕ
  count_of n peer proto = elim (lookup (peer, proto) n.peer_counts) [ none ↦ 0 | some c ↦ c ]

  -- Room for one more mapping of the peer: the state, after the peer's own oldest flow made way for
  -- it where the peer is at its cap; TCP is refused there.
  unfoldable pub make_room : Napt R T → ℕ → MapProto → Answer (Unit {0}) × Napt R T
  unfolding per_peer_cap remove_mapping
  make_room n peer proto =
      let evict : Answer (Unit {0}) × Napt R T = elim (oldest_of n peer proto) [
        | none ↦ (err peer_cap, n)
        | some victim ↦ (ok tt, remove_mapping n victim)
      ] in
      if leb (per_peer_cap n proto) (count_of n peer proto)
      then (if proto =? MapProto.tcp then (err peer_cap, n) else evict)
      else (ok tt, n)

  -- The new mapping is entered, linked, counted and given its first deadline.
  unfoldable pub enter_mapping : Napt R T → ℕ → MapProto → SocketAddr → ℕ → ℕ → ℕ × Napt R T
  unfolding insert_mapping heap_push
  enter_mapping n peer proto internal port now =
      let (id, n1) = insert_mapping n (record {
        owner = peer;
        proto = proto;
        internal = internal;
        external_port = port;
        remotes = [];
        last_seen = now;
        pinned = false;
        older = none;
        newer = none;
      }) in
      let n2 = link_newest n1 id in
      let n3 = record n2 {
        peer_counts = insert (peer, proto) (count_of n2 peer proto + 1) n2.peer_counts;
      } in
      (id, record n3 { expiry = heap_push (now + initial_timeout n3.config proto, id) n3.expiry })

module _ {R T : Type 0} (gen_range : R → ℕ → ℕ × R) where
  unfoldable pub create_mapping : Napt R T → ℕ → MapProto → SocketAddr → ℕ → Answer ℕ × Napt R T
  create_mapping n peer proto internal now =
      let family = is_ipv6 internal.ip in
      let (room, n1) = make_room n peer proto in
      elim room [
        | err drop ↦ (err drop, n1)
        | ok _ ↦
            let (port, a, rng) =
              alloc gen_range (n1.ports family proto) (some internal.port) n1.rng in
            let n2 = record (set_allocator family proto a n1) { rng = rng } in
            elim port [
              | none ↦ (err port_exhausted, n2)
              | some p ↦ let (id, n3) = enter_mapping n2 peer proto internal p now in (ok id, n3)
            ]
      ]

  unfoldable pub mapping_for_uplink : Napt R T → ℕ → MapProto → SocketAddr → ℕ → Answer ℕ × Napt R T
  mapping_for_uplink n peer proto internal now =
      elim (lookup (outbound_key proto internal) n.outbound) [
        | none ↦ create_mapping n peer proto internal now
        | some id ↦ elim (lookup id n.mappings) [
          | none ↦ (err no_mapping, n)
          | some m ↦ if not (m.owner == peer) then (err source_not_owned, n) else (ok id, n)
        ]
      ]
