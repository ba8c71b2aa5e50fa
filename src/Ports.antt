-- ===== src/Ports.antt =====
-- crates/warren-bolthole-core/src/ports.rs: the free list over one range of external ports.
-- A port is a number below 2 ^ 16, a slot an index into the free list as a `u32`.
pub mod State
pub mod Slots
pub mod Valid
pub mod Spec
use warren_sdk_rs.Prelude.{
  ℕ, zero, suc, ◌+◌, ◌-◌, ◌^◌, Bool, true, false, not, ◌&&◌, Option, none, some, List, [], ◌∷◌, ltb,
  leb, ◌==◌, if◌then◌else◌, length, get_elem?, set, push, replicate, swap_remove,
}

-- `CoreError`, the cases that this type returns.
pub data ReserveError : Type 0 where
  port_outside_pool port_in_use port_already_reserved : ReserveError

pub data Reserved : Type 0 where
  ok : Reserved
  err : ReserveError → Reserved

abbrev pub dynamic_pool_start : ℕ
dynamic_pool_start = 32768

abbrev pub dynamic_pool_end : ℕ
dynamic_pool_end = 60999

abbrev pub control_range_start : ℕ
control_range_start = 61000

abbrev pub control_range_end : ℕ
control_range_end = 61999

-- `u32::MAX`: a port that is not in the free list.
abbrev pub taken : ℕ
taken = 2 ^ 32 - 1

abbrev pub is_control : ℕ → Bool
is_control port = leb control_range_start port && leb port control_range_end

pub record PortAllocator : Type 0 where
  pub base : ℕ
  pub free : List ℕ
  pub slot : List ℕ
  pub reserved : List Bool
  pub capacity : ℕ
  pub keeps_control_range : Bool

-- `u32::try_from(at).unwrap_or(TAKEN)`.
abbrev pub slot_of : ℕ → ℕ
slot_of at = if ltb at (2 ^ 32) then at else taken

-- The ports from `port` on, `span` of them, that are not held back.
unfoldable pub build_free : Bool → ℕ → ℕ → List ℕ
build_free keeps zero port = []
build_free keeps (suc span) port =
    let rest = build_free keeps span (port + 1) in
    if not (keeps && is_control port) then port ∷ rest else rest

-- The loop of `build`, from the free port `at` on.
unfoldable pub build_slot : ℕ → ℕ → List ℕ → List ℕ → List ℕ
build_slot base at [] slot = slot
build_slot base at (port ∷ free) slot =
    build_slot base (at + 1) free (set slot (port - base) (slot_of at))

-- The range `first ..= last`.
unfoldable pub build : ℕ → ℕ → Bool → PortAllocator
unfolding build_free build_slot
build first last keeps_control_range =
    let span = last + 1 - first in
    let free = build_free keeps_control_range span first in
    record {
      base = first;
      free = free;
      slot = build_slot first 0 free (replicate span taken);
      reserved = replicate span false;
      capacity = length free;
      keeps_control_range = keeps_control_range;
    }

unfoldable pub new : ℕ → ℕ → PortAllocator
unfolding build
new first last = build first last false

unfoldable pub ports : ℕ → ℕ → PortAllocator
unfolding build
ports first last = build first last true

unfoldable pub dynamic_pool : PortAllocator
unfolding ports
dynamic_pool = ports dynamic_pool_start dynamic_pool_end

unfoldable pub identifiers : PortAllocator
unfolding new
identifiers = new 1 (2 ^ 16 - 1)

abbrev pub available : PortAllocator → ℕ
available a = length a.free

unfoldable pub index : PortAllocator → ℕ → Option ℕ
index a port =
    if a.keeps_control_range && is_control port
    then none
    else if ltb port a.base
    then none
    else if ltb (port - a.base) (length a.slot)
    then some (port - a.base)
    else none

abbrev pub contains : PortAllocator → ℕ → Bool
contains a port = elim (index a port) [ none ↦ false | some i ↦ true ]

-- `self.reserved.get(i).copied().unwrap_or(false)`.
unfoldable pub reserved_at : PortAllocator → ℕ → Bool
reserved_at a i = elim (get_elem? a.reserved i) [ none ↦ false | some r ↦ r ]

-- `self.slot.get(i).copied().unwrap_or(TAKEN)`.
unfoldable pub slot_at : PortAllocator → ℕ → ℕ
slot_at a i = elim (get_elem? a.slot i) [ none ↦ taken | some s ↦ s ]

unfoldable pub is_reserved : PortAllocator → ℕ → Bool
unfolding reserved_at
is_reserved a port = elim (index a port) [ none ↦ false | some i ↦ reserved_at a i ]

-- A method returns its result and the new state.
unfoldable pub take : PortAllocator → ℕ → Option ℕ × PortAllocator
take a i = elim (get_elem? a.slot i) [
  | none ↦ (none, a)
  | some at ↦ elim (get_elem? a.free at) [
    | none ↦ (none, a)
    | some port ↦
        let a' = record a { free = swap_remove a.free at } in
        elim (get_elem? a'.free at) [
          | none ↦ (some port, record a' { slot = set a'.slot i taken })
          | some moved ↦ elim (index a' moved) [
            | none ↦ (none, a')
            | some j ↦ (some port, record a' { slot = set (set a'.slot j (slot_of at)) i taken })
          ]
        ]
  ]
]

unfoldable pub push_free : PortAllocator → ℕ → ℕ → PortAllocator
push_free a i port = record a {
  free = push a.free port;
  slot = set a.slot i (slot_of (length a.free));
}

-- `rng.gen_range(0..n)` of the crate rand: the number drawn and the generator's new state.
module _ {R : Type 0} (gen_range : R → ℕ → ℕ × R) where
  -- The uniform draw, taken when the preferred port is not to be had.
  unfoldable pub draw : PortAllocator → R → Option ℕ × PortAllocator × R
  draw a r = elim a.free [
    | [] ↦ (none, a, r)
    | _ ∷ _ ↦
        let (at, r') = gen_range r (length a.free) in
        elim (get_elem? a.free at) [
          | none ↦ (none, a, r')
          | some port ↦ elim (index a port) [
            | none ↦ (none, a, r')
            | some i ↦ let (p, a') = take a i in (p, a', r')
          ]
        ]
  ]

  unfoldable pub alloc : PortAllocator → Option ℕ → R → Option ℕ × PortAllocator × R
  unfolding draw
  alloc a preferred r = elim preferred [
    | none ↦ draw a r
    | some port ↦ elim (index a port) [
      | none ↦ draw a r
      | some i ↦ elim (get_elem? a.slot i) [
        | none ↦ (none, a, r)
        | some s ↦ if s == taken then draw a r else (let (p, a') = take a i in (p, a', r))
      ]
    ]
  ]

unfoldable pub reserve : PortAllocator → ℕ → Reserved × PortAllocator
unfolding reserved_at slot_at
reserve a port = elim (index a port) [
  | none ↦ (err port_outside_pool, a)
  | some i ↦
      if reserved_at a i
      then (err port_already_reserved, a)
      else if slot_at a i == taken
      then (err port_in_use, a)
      else (let (p, a') = take a i in
          elim p [
            | none ↦ (err port_in_use, a')
            | some _ ↦ (ok, record a' { reserved = set a'.reserved i true })
          ])
]

unfoldable pub unreserve : PortAllocator → ℕ → Bool × PortAllocator
unfolding reserved_at push_free
unreserve a port = elim (index a port) [
  | none ↦ (false, a)
  | some i ↦
      if not (reserved_at a i)
      then (false, a)
      else (true, push_free (record a { reserved = set a.reserved i false }) i port)
]

unfoldable pub release : PortAllocator → ℕ → PortAllocator
unfolding reserved_at slot_at push_free
release a port = elim (index a port) [
  | none ↦ a
  | some i ↦
      if reserved_at a i then a else if not (slot_at a i == taken) then a else push_free a i port
]
