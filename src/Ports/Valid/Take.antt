-- ===== src/Ports/Valid/Take.antt =====
-- `take` on a valid allocator: the port leaves the free list, nothing else moves but the last entry.
use warren_sdk_rs.Prelude.{
  ℕ, ◌+◌, ◌-◌, ◌^◌, ◌<◌, ◌≡◌, ◌≢◌, refl, ◌∙◌, ap, none, some, inl, inr, arith, Bool-cases, ltb,
  ◌==◌, if◌then◌else◌, length, get_elem?, set, swap_remove, get_elem?-lt, get_elem?-set,
  get_elem?-some, get_elem?-none, get_elem?-swap_remove, length-swap_remove, length-set,
}
use warren_sdk_rs.Ports.{PortAllocator, taken, slot_of, index, take}
use warren_sdk_rs.Ports.Slots.{free_slots, free_slots-le, free_slots-set}
use warren_sdk_rs.Ports.Valid.{IsValid}

-- `index` reads the base, the span and the kind of the space only.
pub index_cong :
    (a a' : PortAllocator) (port : ℕ)
    → a'.base ≡ a.base
    → length a'.slot ≡ length a.slot
    → a'.keeps_control_range ≡ a.keeps_control_range
    → index a' port ≡ index a port
unfolding index
index_cong a a' port b l k = rw (b, l, k)

pub index-some :
    (a : PortAllocator) (port i : ℕ)
    → index a port ≡ some i
    → (port ≡ a.base + i) × (i < length a.slot)
unfolding index
index-some a port i h = ground arith

-- The state after the free port at `at`, whose offset is `i`, is taken; `last` was last in the list.
pub record Took (a : PortAllocator) (i at last : ℕ) (a' : PortAllocator) : Type 0 where
  pub base : a'.base ≡ a.base
  pub reserved : a'.reserved ≡ a.reserved
  pub capacity : a'.capacity ≡ a.capacity
  pub keeps : a'.keeps_control_range ≡ a.keeps_control_range
  pub slot_length : length a'.slot ≡ length a.slot
  pub free_length : length a'.free ≡ length a.free - 1
  pub free_elem :
      (k : ℕ)
      → get_elem? a'.free k ≡ (
          if ltb (k + 1) (length a.free)
          then (if k == at then some last else get_elem? a.free k)
          else none)
  pub slot_elem :
      (k : ℕ)
      → get_elem? a'.slot k ≡ (
          if k == i
          then some taken
          else if k == (last - a.base)
          then some at
          else get_elem? a.slot k)
  pub count : free_slots a'.slot + 1 ≡ free_slots a.slot

module _ (a : PortAllocator) (v : IsValid a) (i at : ℕ) (here : get_elem? a.slot i ≡ some at)
    (at_free : at ≢ taken) where
  slots_bound : at < 2 ^ 32
  slots_bound = omega (
    arith,
    v.fits,
    v.counted,
    free_slots-le a.slot,
    get_elem?-lt a.free at (v.slotted i at here at_free),
  )

  take_last :
      (last : ℕ)
      → get_elem? a.free (length a.free - 1) ≡ some last
      → at + 1 ≡ length a.free
      → (a' : PortAllocator) × (take a i ≡ (some (a.base + i), a')) × Took a i at last a'
  unfolding take
  take_last last l e =
      let port = v.slotted i at here at_free in
      let gone =
        get_elem?-none (swap_remove a.free at) at (omega (arith, length-swap_remove a.free at)) in
      (
        record a { free = swap_remove a.free at; slot = set a.slot i taken },
        rw (here, port, gone, take),
        record {
          base = refl;
          reserved = refl;
          capacity = refl;
          keeps = refl;
          slot_length = length-set a.slot i taken;
          free_length = length-swap_remove a.free at;
          free_elem = λ k. ground (arith, get_elem?-swap_remove a.free at k (omega arith), l);
          slot_elem = λ k. ground (
            arith,
            get_elem?-set a.slot i k taken,
            get_elem?-lt a.slot i here,
            ap (λ (n : ℕ). get_elem? a.free n) e,
            port,
            l,
            here,
          );
          count = ground (arith, free_slots-set a.slot i at taken here);
        },
      )

  take_moved :
      (last : ℕ)
      → get_elem? a.free (length a.free - 1) ≡ some last
      → at + 1 < length a.free
      → (a' : PortAllocator) × (take a i ≡ (some (a.base + i), a')) × Took a i at last a'
  unfolding take
  take_moved last l e =
      let port = v.slotted i at here at_free in
      let (known, there) = v.listed (length a.free - 1) last l in
      let j = last - a.base in
      let a1 : PortAllocator = record a { free = swap_remove a.free at } in
      let moved : get_elem? (swap_remove a.free at) at ≡ some last =
        ground (arith, get_elem?-swap_remove a.free at at (omega arith), l) in
      let place : index a1 last ≡ some j = index_cong a a1 last refl refl refl ∙ known in
      let entry : slot_of at ≡ at = ground (arith, slots_bound) in
      (
        record a1 { slot = set (set a.slot j at) i taken },
        rw (here, port, moved, place, entry, take),
        record {
          base = refl;
          reserved = refl;
          capacity = refl;
          keeps = refl;
          slot_length = length-set (set a.slot j at) i taken ∙ length-set a.slot j at;
          free_length = length-swap_remove a.free at;
          free_elem = λ k. ground (arith, get_elem?-swap_remove a.free at k (omega arith), l);
          slot_elem = λ k. ground (
            arith,
            get_elem?-set (set a.slot j at) i k taken,
            get_elem?-set a.slot j k at,
            length-set a.slot j at,
            get_elem?-lt a.slot i here,
            get_elem?-lt a.slot j there,
          );
          count = ground (
            arith,
            free_slots-set a.slot j (length a.free - 1) at there,
            free_slots-set (set a.slot j at) i at taken,
            get_elem?-set a.slot j i at,
            get_elem?-lt a.slot j there,
            here,
            v.counted,
            v.fits,
            free_slots-le a.slot,
          );
        },
      )

  -- A free port can be taken, and is what its slot says.
  pub take-Took :
      (last : ℕ) × (a' : PortAllocator) × (get_elem? a.free (length a.free - 1) ≡ some last)
      × (take a i ≡ (some (a.base + i), a'))
      × Took a i at last a'
  take-Took =
      let bound = get_elem?-lt a.free at (v.slotted i at here at_free) in
      let (last, l) = get_elem?-some a.free (length a.free - 1) (omega arith) in
      elim (Bool-cases (ltb (at + 1) (length a.free))) [
        | inl more ↦ let (a', t, w) = take_moved last l (ground arith) in (last, a', l, t, w)
        | inr less ↦ let (a', t, w) = take_last last l (ground arith) in (last, a', l, t, w)
      ]
