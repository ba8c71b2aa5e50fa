-- ===== src/Napt/Static.antt =====
-- The forwards that an operator pins: `add_static` and `remove_static` of nat.rs.
use warren_sdk_rs.Prelude.{ℕ, Bool, true, false, not, Option, none, some, [], if◌then◌else◌}
use warren_sdk_rs.Prelude.Map.{nat_eq, bool_eq, triple_eq, lookup}
use warren_sdk_rs.Ip.{IpAddr, is_ipv6}
use warren_sdk_rs.Ports.{PortAllocator, Reserved, contains, reserve, unreserve}
use warren_sdk_rs.Napt.Types.{MapProto, proto_eq, addr_eq, StaticDnat, Mapping, Napt}
use warren_sdk_rs.Napt.Table.{
  Added, added, target_not_owned, reserve_failed, outbound_key, inbound_key, set_allocator,
  insert_mapping, remove_mapping,
}

abbrev pub pinned_mapping : ℕ → StaticDnat → ℕ → Mapping
pinned_mapping owner dnat now = record {
  owner = owner;
  proto = dnat.proto;
  internal = dnat.target;
  external_port = dnat.external_port;
  remotes = [];
  last_seen = now;
  pinned = true;
  older = none;
  newer = none;
}

-- A port of the space is reserved first; one outside it needs no reservation.
unfoldable pub reserve_for : PortAllocator → ℕ → Reserved × PortAllocator
reserve_for a port = if contains a port then reserve a port else (Reserved.ok, a)

module _ {R T : Type 0} where
  -- `if let Some(id) = ... { self.remove_mapping(id) }`.
  abbrev pub remove_mapping? : Napt R T → Option ℕ → Napt R T
  remove_mapping? n none = n
  remove_mapping? n (some id) = remove_mapping n id

  -- What follows the reservation.
  unfoldable pub pin : Napt R T → ℕ → StaticDnat → ℕ → Added × Napt R T
  pin n owner dnat now =
      let n1 = remove_mapping? n (lookup (outbound_key dnat.proto dnat.target) n.outbound) in
      let n2 =
        remove_mapping? n1 (
          lookup (inbound_key dnat.proto (is_ipv6 dnat.target.ip) dnat.external_port) n1.inbound) in
      let (id, n3) = insert_mapping n2 (pinned_mapping owner dnat now) in (added id, n3)

  -- `owner_of` is the longest match of the ownership table.
  unfoldable pub add_static : (T → IpAddr → Option ℕ) → Napt R T → StaticDnat → ℕ → Added × Napt R T
  add_static owner_of n dnat now = elim (owner_of n.ownership dnat.target.ip) [
    | none ↦ (target_not_owned, n)
    | some owner ↦
        let family = is_ipv6 dnat.target.ip in
        let (r, a) = reserve_for (n.ports family dnat.proto) dnat.external_port in
        let n1 = set_allocator family dnat.proto a n in
        elim r [ Reserved.err e ↦ (reserve_failed e, n1) | Reserved.ok ↦ pin n1 owner dnat now ]
  ]

  unfoldable pub remove_static : Napt R T → MapProto → ℕ → Bool → Bool × Napt R T
  remove_static n proto port family = elim (lookup (inbound_key proto family port) n.inbound) [
    | none ↦ (false, n)
    | some id ↦
        let n1 = remove_mapping n id in
        let (_, a) = unreserve (n1.ports family proto) port in
        let is_pinned : Bool = elim (lookup id n.mappings) [ none ↦ false | some m ↦ m.pinned ] in
        if not is_pinned then (false, n) else (true, set_allocator family proto a n1)
  ]
