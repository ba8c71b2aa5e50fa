-- ===== src/Ports/Valid/Keep.antt =====
-- The writes of ports.rs keep the invariant.
use warren_sdk_rs.Prelude.{
  ℕ, ◌+◌, ◌-◌, ◌^◌, ◌<◌, ◌≡◌, ◌≢◌, refl, sym, ◌∙◌, ap, Bool, true, false, some, arith, ◌==◌,
  if◌then◌else◌, length, get_elem?, set, get_elem?-lt, get_elem?-set, get_elem?-push, length-push,
  length-set,
}
use warren_sdk_rs.Ports.{PortAllocator, taken, slot_of, index, reserved_at, push_free}
use warren_sdk_rs.Ports.Slots.{free_slots-le, free_slots-set}
use warren_sdk_rs.Ports.Valid.{IsValid}
use warren_sdk_rs.Ports.Valid.Take.{Took, index_cong, index-some}

pub reserved_at_cong :
    (a a' : PortAllocator) (i : ℕ) → a'.reserved ≡ a.reserved → reserved_at a' i ≡ reserved_at a i
unfolding reserved_at
reserved_at_cong a a' i e = rw e

module _ (a a' : PortAllocator) (v : IsValid a) (i at last : ℕ)
    (here : get_elem? a.slot i ≡ some at) (at_free : at ≢ taken)
    (l : get_elem? a.free (length a.free - 1) ≡ some last) (w : Took a i at last a') where
  Took-listed :
      (k port : ℕ)
      → get_elem? a'.free k ≡ some port
      → (index a' port ≡ some (port - a'.base)) × (get_elem? a'.slot (port - a'.base) ≡ some k)
  Took-listed k port h = ground (
    arith,
    w.base,
    index_cong a a' port w.base w.slot_length w.keeps,
    w.free_elem k,
    w.slot_elem (port - a.base),
    v.listed (length a.free - 1) last l,
    v.listed k port,
    v.slotted i at here at_free,
    here,
  )

  Took-slotted :
      (k s : ℕ)
      → get_elem? a'.slot k ≡ some s
      → s ≢ taken
      → get_elem? a'.free s ≡ some (a'.base + k)
  Took-slotted k s h n = ground (
    arith,
    w.base,
    w.slot_elem k,
    w.free_elem s,
    v.slotted k s,
    v.listed (length a.free - 1) last l,
    index-some a last (last - a.base),
    v.slotted i at here at_free,
    get_elem?-lt a.free s {a = a.base + k},
    get_elem?-lt a.free at (v.slotted i at here at_free),
    h,
    here,
    l,
  )

  Took-unlisted : (k : ℕ) → reserved_at a' k ≡ true → get_elem? a'.slot k ≡ some taken
  Took-unlisted k h = ground (
    arith,
    w.slot_elem k,
    reserved_at_cong a a' k w.reserved,
    v.unlisted k,
    v.listed (length a.free - 1) last l,
    v.counted,
    v.fits,
    free_slots-le a.slot,
    get_elem?-lt a.free at (v.slotted i at here at_free),
  )

  pub Took-IsValid : IsValid a'
  Took-IsValid = record {
    fits = rw (w.base, w.slot_length) v.fits;
    reserved_length = ap length w.reserved ∙ v.reserved_length ∙ sym w.slot_length;
    counted = omega (arith, w.count, w.free_length, v.counted);
    listed = Took-listed;
    slotted = Took-slotted;
    unlisted = Took-unlisted;
  }

-- The write of one flag.
pub reserved_at-set :
    (a : PortAllocator) (i k : ℕ) (b : Bool)
    → i < length a.reserved
    → reserved_at (record a { reserved = set a.reserved i b }) k
      ≡ (if k == i then b else reserved_at a k)
unfolding reserved_at
reserved_at-set a i k b h = ground (arith, get_elem?-set a.reserved i k b)

-- A flag may be set where the slot is taken, and lifted anywhere.
pub flag-IsValid :
    (a : PortAllocator) (i : ℕ) (b : Bool)
    → IsValid a
    → i < length a.reserved
    → (b ≡ true → get_elem? a.slot i ≡ some taken)
    → IsValid (record a { reserved = set a.reserved i b })
flag-IsValid a i b v h t =
    let c : PortAllocator = record a { reserved = set a.reserved i b } in
    record {
      fits = v.fits;
      reserved_length = length-set a.reserved i b ∙ v.reserved_length;
      counted = v.counted;
      listed = λ at port e.
          (index_cong a c port refl refl refl ∙ (v.listed at port e).0, (v.listed at port e).1);
      slotted = v.slotted;
      unlisted = λ k e. ground (arith, reserved_at-set a i k b h, v.unlisted k, e, t);
    }

module _ (a : PortAllocator) (v : IsValid a) (i port : ℕ) (known : index a port ≡ some i)
    (gone : get_elem? a.slot i ≡ some taken) (loose : reserved_at a i ≡ false) where
  free_room : length a.free < 2 ^ 16
  free_room = ground (
    arith,
    v.fits,
    v.counted,
    free_slots-le (set a.slot i 0),
    length-set a.slot i 0,
    free_slots-set a.slot i taken 0 gone,
  )

  pub slot_elem :
      (k : ℕ)
      → get_elem? (push_free a i port).slot k
        ≡ (if k == i then some (length a.free) else get_elem? a.slot k)
  unfolding push_free
  slot_elem k = ground (
    arith,
    free_room,
    get_elem?-set a.slot i k (slot_of (length a.free)),
    get_elem?-lt a.slot i gone,
  )

  free_elem :
      (k : ℕ)
      → get_elem? (push_free a i port).free k
        ≡ (if k == length a.free then some port else get_elem? a.free k)
  unfolding push_free
  free_elem k = get_elem?-push a.free port k

  pub push_index : (q : ℕ) → index (push_free a i port) q ≡ index a q
  unfolding push_free
  push_index q = index_cong a (push_free a i port) q refl (length-set a.slot i _) refl

  pub push_reserved : (k : ℕ) → reserved_at (push_free a i port) k ≡ reserved_at a k
  unfolding push_free
  push_reserved k = reserved_at_cong a (push_free a i port) k refl

  push-listed :
      (k q : ℕ)
      → get_elem? (push_free a i port).free k ≡ some q
      → (index a q ≡ some (q - a.base))
        × (get_elem? (push_free a i port).slot (q - a.base) ≡ some k)
  push-listed k q h = ground (
    arith,
    free_elem k,
    slot_elem (q - a.base),
    v.listed k q,
    index-some a port i known,
    gone,
    free_room,
    get_elem?-lt a.free k {a = q},
    known,
    h,
  )

  push-slotted :
      (k s : ℕ)
      → get_elem? (push_free a i port).slot k ≡ some s
      → s ≢ taken
      → get_elem? (push_free a i port).free s ≡ some (a.base + k)
  push-slotted k s h n = ground (
    arith,
    free_elem s,
    slot_elem k,
    v.slotted k s,
    index-some a port i known,
    get_elem?-lt a.free s {a = a.base + k},
    h,
  )

  -- A port that no flow holds and no forward pins goes back to the list.
  pub push_free-IsValid : IsValid (push_free a i port)
  unfolding push_free
  push_free-IsValid =
      let room = free_room in
      record {
        fits = rw (length-set a.slot i (slot_of (length a.free))) v.fits;
        reserved_length = v.reserved_length ∙ sym (length-set a.slot i _);
        counted = ground (
          arith,
          free_slots-set a.slot i taken (slot_of (length a.free)) gone,
          length-push a.free port,
          v.counted,
        );
        listed = λ k q h. (push_index q ∙ (push-listed k q h).0, (push-listed k q h).1);
        slotted = push-slotted;
        unlisted = λ k h. ground (arith, slot_elem k, push_reserved k, v.unlisted k, loose, h);
      }
