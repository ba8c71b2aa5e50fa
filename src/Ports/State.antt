-- ===== src/Ports/State.antt =====
-- What an allocator says of each port: the abstract view of ports.rs.
use warren_sdk_rs.Prelude.{ℕ, none, some, ◌==◌, if◌then◌else◌}
use warren_sdk_rs.Ports.{PortAllocator, taken, index, reserved_at, slot_at}

-- `outside`: not a port of this space. `pinned`: reserved for a static forward.
pub data PortState : Type 0 where
  outside free held pinned : PortState

unfoldable pub state_at : PortAllocator → ℕ → PortState
state_at a i = if reserved_at a i then pinned else if slot_at a i == taken then held else free

unfoldable pub state : PortAllocator → ℕ → PortState
state a port = elim (index a port) [ none ↦ outside | some i ↦ state_at a i ]
