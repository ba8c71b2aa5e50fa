-- ===== src/Ports/Spec/Moves.antt =====
-- What each write of the allocator does to the state of every port.
use warren_sdk_rs.Prelude.{
  ℕ, ◌-◌, ◌≡◌, ◌≢◌, refl, Bool, false, some, inl, inr, arith, Option-cases, ◌==◌, if◌then◌else◌,
  length, get_elem?, set, get_elem?-lt, get_elem?-some,
}
use warren_sdk_rs.Ports.{PortAllocator, taken, index, reserved_at, slot_at, push_free}
use warren_sdk_rs.Ports.Slots.{free_slots-le}
use warren_sdk_rs.Ports.State.{free, held, pinned, state, state_at}
use warren_sdk_rs.Ports.Valid.{IsValid}
use warren_sdk_rs.Ports.Valid.Take.{Took, index_cong, index-some}
use warren_sdk_rs.Ports.Valid.Keep.{
  reserved_at_cong, reserved_at-set, slot_elem, push_index, push_reserved,
}

-- What the state of a known port says of its slot and its flag.
pub slot_of_state :
    (a : PortAllocator) (port i : ℕ)
    → IsValid a
    → index a port ≡ some i
    → (at : ℕ) × (get_elem? a.slot i ≡ some at) × (slot_at a i ≡ at)
unfolding slot_at
slot_of_state a port i v known =
    let (at, e) = get_elem?-some a.slot i (index-some a port i known).1 in (at, e, rw (e, slot_at))

pub index_unique : (a : PortAllocator) (p q i : ℕ) → index a p ≡ some i → index a q ≡ some i → p ≡ q
index_unique a p q i h k = omega (arith, index-some a p i h, index-some a q i k)

module _ (a a' : PortAllocator) (v : IsValid a) (i at last port : ℕ) (known : index a port ≡ some i)
    (here : get_elem? a.slot i ≡ some at) (at_free : at ≢ taken)
    (l : get_elem? a.free (length a.free - 1) ≡ some last) (w : Took a i at last a') where
  took_at :
      (k : ℕ) → reserved_at a i ≡ false → state_at a' k ≡ (if k == i then held else state_at a k)
  unfolding state_at slot_at
  took_at k loose = ground (
    arith,
    w.slot_elem k,
    reserved_at_cong a a' k w.reserved,
    v.listed (length a.free - 1) last l,
    v.counted,
    v.fits,
    free_slots-le a.slot,
    get_elem?-lt a.free at (v.slotted i at here at_free),
    loose,
  )

  -- The port taken becomes held; no other port changes.
  pub state-took :
      reserved_at a i ≡ false → (q : ℕ) → state a' q ≡ (if q == port then held else state a q)
  unfolding state
  state-took loose q = elim (Option-cases (index a q)) [
    | inl e ↦ ground (arith, index_cong a a' q w.base w.slot_length w.keeps, known, e)
    | inr (k, e) ↦ ground (
      arith,
      index_cong a a' q w.base w.slot_length w.keeps,
      known,
      e,
      took_at k loose,
      index-some a q k e,
      index-some a port i known,
    )
  ]

module _ (a : PortAllocator) (v : IsValid a) (i port : ℕ) (known : index a port ≡ some i)
    (gone : get_elem? a.slot i ≡ some taken) (loose : reserved_at a i ≡ false) where
  pushed_at : (k : ℕ) → state_at (push_free a i port) k ≡ (if k == i then free else state_at a k)
  unfolding state_at slot_at
  pushed_at k = ground (
    arith,
    slot_elem a v i port known gone loose k,
    push_reserved a v i port known gone loose k,
    v.counted,
    v.fits,
    free_slots-le a.slot,
    loose,
  )

  -- The port pushed becomes free; no other port changes.
  pub state-push_free :
      (q : ℕ) → state (push_free a i port) q ≡ (if q == port then free else state a q)
  unfolding state
  state-push_free q = elim (Option-cases (index a q)) [
    | inl e ↦ ground (arith, push_index a v i port known gone loose q, known, e)
    | inr (k, e) ↦ ground (
      arith,
      push_index a v i port known gone loose q,
      known,
      e,
      pushed_at k,
      index-some a q k e,
      index-some a port i known,
    )
  ]

-- A flag written changes the state of its port alone.
pub state-flag :
    (a : PortAllocator) (i port : ℕ) (b : Bool) (q : ℕ)
    → IsValid a
    → index a port ≡ some i
    → get_elem? a.slot i ≡ some taken
    → state (record a { reserved = set a.reserved i b }) q
      ≡ (if q == port then (if b then pinned else held) else state a q)
unfolding state state_at slot_at
state-flag a i port b q v known gone =
    let c : PortAllocator = record a { reserved = set a.reserved i b } in
    elim (Option-cases (index a q)) [
      | inl e ↦ ground (arith, index_cong a c q refl refl refl, known, e)
      | inr (k, e) ↦ ground (
        arith,
        index_cong a c q refl refl refl,
        known,
        e,
        reserved_at-set a i k b,
        v.reserved_length,
        index-some a q k e,
        index-some a port i known,
        gone,
      )
    ]
