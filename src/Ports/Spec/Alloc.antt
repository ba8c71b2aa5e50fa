-- ===== src/Ports/Spec/Alloc.antt =====
-- `alloc` of ports.rs: a port that was free, or none when none is.
use warren_sdk_rs.Prelude.{
  ℕ, ◌-◌, ◌<◌, ◌≡◌, ◌≢◌, ◌⊎◌, refl, sym, ◌∙◌, ap, Option, none, some, inl, inr, arith, Bool-cases,
  Option-cases, List, [], ◌∷◌, ltb, ◌==◌, length, get_elem?, get_elem?-lt, get_elem?-some,
}
use warren_sdk_rs.Ports.{PortAllocator, taken, index, draw, alloc}
use warren_sdk_rs.Ports.State.{free, held, state}
use warren_sdk_rs.Ports.Valid.{IsValid}
use warren_sdk_rs.Ports.Valid.Take.{index-some}
use warren_sdk_rs.Ports.Spec.{Moved, take-Moved, free_slot, listed_free}
use warren_sdk_rs.Ports.Spec.Moves.{slot_of_state}

-- What an allocation returns: a port that was free and is now held, or nothing if none was free.
unfoldable pub Allocated : PortAllocator → Option ℕ → PortAllocator → Type 0
Allocated a (some port) a' = (state a port ≡ free) × Moved a port held a'
Allocated a none a' = (a' ≡ a) × ((q : ℕ) → state a q ≢ free)

-- Either way the space stays well formed.
pub Allocated-IsValid :
    (a : PortAllocator) (o : Option ℕ) (a' : PortAllocator)
    → IsValid a
    → Allocated a o a'
    → IsValid a'
unfolding Allocated
Allocated-IsValid a (some port) a' v (h, m) = m.valid
Allocated-IsValid a none a' v (same, h) = rw same v

empty : (xs : List ℕ) → length xs ≡ 0 → xs ≡ []
empty [] h = refl
empty (x ∷ xs) h = absurd (omega arith)

nonempty : (xs : List ℕ) (i a : ℕ) → get_elem? xs i ≡ some a → xs ≢ []
unfolding get_elem?
nonempty [] i a h = ground arith
nonempty (x ∷ xs) i a h = ground arith

module _ {R : Type 0} (gen_range : R → ℕ → ℕ × R)
    (gen_range-lt : (r : R) (n : ℕ) → 0 < n → (gen_range r n).0 < n) (a : PortAllocator) (r : R)
    (v : IsValid a) where
  draw-some :
      (at port : ℕ)
      → (gen_range r (length a.free)).0 ≡ at
      → get_elem? a.free at ≡ some port
      → (a' : PortAllocator) × (draw gen_range a r
          ≡ (some port, a', (gen_range r (length a.free)).1))
        × (state a port ≡ free)
        × Moved a port held a'
  unfolding draw
  draw-some at port d e =
      let (at_free, loose, is_free) = listed_free a at port v e in
      let (known, here) = v.listed at port e in
      let (a', t, m, _, _) = take-Moved a port (port - a.base) at v known loose here at_free in
      (a', ground (arith, d, e, nonempty a.free at port e, known, t), is_free, m)

  draw-none : length a.free ≡ 0 → draw gen_range a r ≡ (none, a, r)
  unfolding draw
  draw-none e = ground (arith, empty a.free e)

  none_free : length a.free ≡ 0 → (q : ℕ) → state a q ≢ free
  none_free e q h =
      let (i, at, known, _, here, at_free) = free_slot a q v h in
      omega (arith, get_elem?-lt a.free at (v.slotted i at here at_free))

  draw-Allocated : Allocated a (draw gen_range a r).0 (draw gen_range a r).1
  unfolding Allocated
  draw-Allocated = elim (Bool-cases (ltb 0 (length a.free))) [
    | inl more ↦
        let at = (gen_range r (length a.free)).0 in
        let (port, e) = get_elem?-some a.free at (gen_range-lt r (length a.free) (ground arith)) in
        let (a', d, h, m) = draw-some at port refl e in rw d (h, m)
    | inr less ↦ rw (draw-none (ground arith)) (refl, none_free (ground arith))
  ]

  -- The port preferred, if it is a port of the space, is listed or not.
  alloc_cases :
      (preferred : Option ℕ)
      → (alloc gen_range a preferred r ≡ draw gen_range a r)
        ⊎ ((port : ℕ) × (a' : PortAllocator) × (preferred ≡ some port)
            × (alloc gen_range a preferred r ≡ (some port, a', r))
            × (state a port ≡ free)
            × Moved a port held a')
  unfolding alloc
  alloc_cases none = inl refl
  alloc_cases (some port) = elim (Option-cases (index a port)) [
    | inl e ↦ inl (rw (e, alloc))
    | inr (i, e) ↦
        let (s, here, _) = slot_of_state a port i v e in
        elim (Bool-cases (s == taken)) [
          | inl gone ↦ inl (rw (e, here, gone, alloc))
          | inr there ↦
              let same : port - a.base ≡ i = omega (arith, index-some a port i e) in
              let whole = (index-some a port i e).0 in
              let (_, loose, is_free) =
                listed_free a s port v (v.slotted i s here (ground arith) ∙ ap some (sym whole)) in
              let (a', t, m, _, _) =
                take-Moved a port i s v e (rw same at loose) here (ground arith) in
              inr (port, a', refl, rw (e, here, there, alloc) (rw t refl), is_free, m)
        ]
  ]

  -- Over a well-formed space, and with a generator that draws below its bound: an allocation returns
  -- a port that was free and is now held and changes no other, or finds no port free and changes
  -- nothing.
  pub alloc-Allocated :
      (preferred : Option ℕ)
      → Allocated a (alloc gen_range a preferred r).0 (alloc gen_range a preferred r).1
  unfolding Allocated
  alloc-Allocated preferred = elim (alloc_cases preferred) [
    | inl e ↦ rw e draw-Allocated
    | inr (port, a', _, e, h, m) ↦ rw e (h, m)
  ]

  -- Over a well-formed space, and with a generator that draws below its bound: a port that is free
  -- and preferred is the port returned.
  pub alloc_preferred :
      (port : ℕ) → state a port ≡ free → (alloc gen_range a (some port) r).0 ≡ some port
  unfolding alloc
  alloc_preferred port h =
      let (i, at, known, loose, here, at_free) = free_slot a port v h in
      let (a', t, _, _, _) = take-Moved a port i at v known loose here at_free in
      ground (arith, known, here, at_free, t)
