-- ===== src/Ports/Spec.antt =====
-- The operations of ports.rs against the abstract view: which state each port is in.
pub mod Moves
pub mod Alloc
pub mod Pins
pub mod Build
use warren_sdk_rs.Prelude.{
  ℕ, suc, ◌+◌, ◌-◌, ◌^◌, ◌≤◌, ◌<◌, ◌≡◌, ◌≢◌, ◌⊎◌, refl, sym, ◌∙◌, ap, Bool, true, false, Option,
  none, some, inl, inr, arith, Bool-cases, Option-cases, List, [], ◌∷◌, ltb, leb, ◌==◌, ◌&&◌,
  if◌then◌else◌, length, get_elem?, set, push, get_elem?-lt, get_elem?-some, length-set,
}
use warren_sdk_rs.Ports.{
  PortAllocator, ReserveError, Reserved, ok, err, port_outside_pool, port_in_use,
  port_already_reserved, taken, index, reserved_at, slot_at, take, draw, alloc, reserve, unreserve,
  release,
}
use warren_sdk_rs.Ports.Slots.{free_slots-le}
use warren_sdk_rs.Ports.State.{PortState, outside, free, held, pinned, state, state_at}
use warren_sdk_rs.Ports.Valid.{IsValid}
use warren_sdk_rs.Ports.Valid.Take.{Took, take-Took, index_cong, index-some}
use warren_sdk_rs.Ports.Valid.Keep.{Took-IsValid, flag-IsValid, push_free-IsValid}
use Moves.{slot_of_state, index_unique, state-took, state-push_free, state-flag}

-- `a'` is `a` with `port` moved to the state `s`, and is well formed.
pub record Moved (a : PortAllocator) (port : ℕ) (s : PortState) (a' : PortAllocator) : Type 0 where
  pub valid : IsValid a'
  pub moved : (q : ℕ) → state a' q ≡ (if q == port then s else state a q)

-- A free port that is taken becomes held.
pub take-Moved :
    (a : PortAllocator) (port i at : ℕ)
    → IsValid a
    → index a port ≡ some i
    → reserved_at a i ≡ false
    → get_elem? a.slot i ≡ some at
    → at ≢ taken
    → (a' : PortAllocator) × (take a i ≡ (some port, a'))
      × Moved a port held a'
      × (get_elem? a'.slot i ≡ some taken)
      × (index a' port ≡ some i)
take-Moved a port i at v known loose here at_free =
    let (last, a', l, t, w) = take-Took a v i at here at_free in
    (
      a',
      t ∙ ap (λ p. (some p, a')) (sym (index-some a port i known).0),
      record {
        valid = Took-IsValid a a' v i at last here at_free l w;
        moved = state-took a a' v i at last port known here at_free l w loose;
      },
      ground (arith, w.slot_elem i),
      index_cong a a' port w.base w.slot_length w.keeps ∙ known,
    )

-- A free port is listed, and one that is listed is free.
pub free_slot :
    (a : PortAllocator) (port : ℕ)
    → IsValid a
    → state a port ≡ free
    → (i : ℕ) × (at : ℕ) × (index a port ≡ some i)
      × (reserved_at a i ≡ false)
      × (get_elem? a.slot i ≡ some at)
      × (at ≢ taken)
unfolding state state_at slot_at
free_slot a port v h = elim (Option-cases (index a port)) [
  | inl e ↦ ground arith
  | inr (i, e) ↦
      let (at, f) = get_elem?-some a.slot i (index-some a port i e).1 in
      (i, at, ground arith, ground arith, ground arith, ground arith)
]

pub listed_free :
    (a : PortAllocator) (at port : ℕ)
    → IsValid a
    → get_elem? a.free at ≡ some port
    → (at ≢ taken) × (reserved_at a (port - a.base) ≡ false) × (state a port ≡ free)
unfolding state state_at slot_at
listed_free a at port v h = ground (
  arith,
  v.listed at port h,
  v.counted,
  v.fits,
  free_slots-le a.slot,
  get_elem?-lt a.free at h,
  v.unlisted (port - a.base),
)
