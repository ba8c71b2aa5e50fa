-- ===== src/Tests/PortSpace.antt =====
-- The port space of ports.rs over four ports, with a generator that always draws the first entry.
use warren_sdk_rs.Prelude.{
  ℕ, ◌<◌, ◌≡◌, ◌≢◌, ◌⊎◌, true, false, none, some, arith, leb, not, ◌&&◌, if◌then◌else◌,
}
use warren_sdk_rs.Ports.{PortAllocator, is_control, build, alloc, reserve, unreserve, release}
use warren_sdk_rs.Ports.State.{outside, free, held, pinned, state}
use warren_sdk_rs.Ports.Valid.{IsValid}
use warren_sdk_rs.Ports.Spec.{Moved}
use warren_sdk_rs.Ports.Spec.Alloc.{Allocated, Allocated-IsValid, alloc-Allocated}
use warren_sdk_rs.Ports.Spec.Pins.{
  Reserves, Reserves-IsValid, reserve-Reserves, release-Moved, unreserve-Moved,
}
use warren_sdk_rs.Ports.Spec.Build.{build-IsValid}

abbrev first_entry : ℕ → ℕ → ℕ × ℕ
first_entry r n = (0, r)

first_entry-lt : (r : ℕ) (n : ℕ) → 0 < n → (first_entry r n).0 < n
first_entry-lt r n h = h

abbrev four_ports : PortAllocator
four_ports = build 60998 61001 true

four_ports-IsValid : IsValid four_ports
four_ports-IsValid = (build-IsValid 60998 61001 true (omega arith) (omega arith)).0

four_ports-free : state four_ports 60999 ≡ free
four_ports-free = (build-IsValid 60998 61001 true (omega arith) (omega arith)).1 60999

build-IsValid_example :
    IsValid four_ports
    × ((q : ℕ)
        → state four_ports q
          ≡ (if leb 60998 q && (leb q 61001 && not (true && is_control q)) then free else outside))
build-IsValid_example = build-IsValid 60998 61001 true (omega arith) (omega arith)

alloc-Allocated_example :
    Allocated four_ports
      (alloc first_entry four_ports none 7).0
      (alloc first_entry four_ports none 7).1
alloc-Allocated_example =
    alloc-Allocated first_entry first_entry-lt four_ports 7 four_ports-IsValid none

reserve-Reserves_example :
    Reserves four_ports 60999
      (state four_ports 60999)
      (reserve four_ports 60999).0
      (reserve four_ports 60999).1
reserve-Reserves_example = reserve-Reserves four_ports 60999 four_ports-IsValid

-- The same space after a flow took the port 60999, and after a forward pinned it.
abbrev one_held : PortAllocator
one_held = (alloc first_entry four_ports (some 60999) 7).1

one_held-IsValid : IsValid one_held
one_held-IsValid =
    Allocated-IsValid four_ports (alloc first_entry four_ports (some 60999) 7).0 one_held
      four_ports-IsValid
      (alloc-Allocated first_entry first_entry-lt four_ports 7 four_ports-IsValid (some 60999))

abbrev one_pinned : PortAllocator
one_pinned = (reserve four_ports 60999).1

one_pinned-IsValid : IsValid one_pinned
one_pinned-IsValid =
    Reserves-IsValid four_ports 60999 (state four_ports 60999) (reserve four_ports 60999).0
      one_pinned four_ports-IsValid (reserve-Reserves four_ports 60999 four_ports-IsValid)

release-Moved_example :
    ((state one_held 60999 ≡ held) × Moved one_held 60999 free (release one_held 60999))
    ⊎ ((state one_held 60999 ≢ held) × (release one_held 60999 ≡ one_held))
release-Moved_example = release-Moved one_held 60999 one_held-IsValid

unreserve-Moved_example :
    ((state one_pinned 60999 ≡ pinned)
      × ((unreserve one_pinned 60999).0 ≡ true)
      × Moved one_pinned 60999 free (unreserve one_pinned 60999).1)
    ⊎ ((state one_pinned 60999 ≢ pinned) × (unreserve one_pinned 60999 ≡ (false, one_pinned)))
unreserve-Moved_example = unreserve-Moved one_pinned 60999 one_pinned-IsValid
