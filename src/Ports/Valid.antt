-- ===== src/Ports/Valid.antt =====
-- The invariant of the free list: slots and free ports point at one another.
pub mod Take
pub mod Keep
use warren_sdk_rs.Prelude.{
  ℕ, ◌+◌, ◌-◌, ◌^◌, ◌≤◌, ◌<◌, ◌≡◌, ◌≢◌, true, List, some, arith, length, get_elem?,
}
use warren_sdk_rs.Ports.{PortAllocator, taken, index, reserved_at}
use warren_sdk_rs.Ports.Slots.{free_slots}

pub record IsValid (a : PortAllocator) : Type 0 where
  pub fits : a.base + length a.slot ≤ 2 ^ 16
  pub reserved_length : length a.reserved ≡ length a.slot
  pub counted : free_slots a.slot ≡ length a.free
  pub listed :
      (at port : ℕ)
      → get_elem? a.free at ≡ some port
      → (index a port ≡ some (port - a.base)) × (get_elem? a.slot (port - a.base) ≡ some at)
  pub slotted :
      (i at : ℕ)
      → get_elem? a.slot i ≡ some at
      → at ≢ taken
      → get_elem? a.free at ≡ some (a.base + i)
  pub unlisted : (i : ℕ) → reserved_at a i ≡ true → get_elem? a.slot i ≡ some taken
