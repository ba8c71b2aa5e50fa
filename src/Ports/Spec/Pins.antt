-- ===== src/Ports/Spec/Pins.antt =====
-- `reserve`, `unreserve` and `release` of ports.rs, by the state of the port.
use warren_sdk_rs.Prelude.{
  ℕ, ◌≡◌, ◌≢◌, ◌⊎◌, refl, ◌∙◌, ap, true, false, none, some, inl, inr, arith, Bool-cases,
  Option-cases, ◌==◌, get_elem?, set,
}
use warren_sdk_rs.Ports.{
  PortAllocator, Reserved, ok, err, port_outside_pool, port_in_use, port_already_reserved, taken,
  index, reserved_at, slot_at, reserve, unreserve, release, push_free,
}
use warren_sdk_rs.Ports.State.{PortState, outside, free, held, pinned, state, state_at}
use warren_sdk_rs.Ports.Valid.{IsValid}
use warren_sdk_rs.Ports.Valid.Take.{index-some, index_cong}
use warren_sdk_rs.Ports.Valid.Keep.{flag-IsValid, push_free-IsValid, reserved_at-set}
use warren_sdk_rs.Ports.Spec.{Moved, take-Moved}
use warren_sdk_rs.Ports.Spec.Moves.{slot_of_state, state-push_free, state-flag}

-- What `reserve` returns and does, by the state of the port.
unfoldable pub Reserves : PortAllocator → ℕ → PortState → Reserved → PortAllocator → Type 0
Reserves a port outside r a' = (r ≡ err port_outside_pool) × (a' ≡ a)
Reserves a port pinned r a' = (r ≡ err port_already_reserved) × (a' ≡ a)
Reserves a port held r a' = (r ≡ err port_in_use) × (a' ≡ a)
Reserves a port free r a' = (r ≡ ok) × Moved a port pinned a'

-- Whatever `reserve` returns, the space stays well formed.
pub Reserves-IsValid :
    (a : PortAllocator) (port : ℕ) (s : PortState) (r : Reserved) (a' : PortAllocator)
    → IsValid a
    → Reserves a port s r a'
    → IsValid a'
unfolding Reserves
Reserves-IsValid a port outside r a' v (e, same) = rw same v
Reserves-IsValid a port pinned r a' v (e, same) = rw same v
Reserves-IsValid a port held r a' v (e, same) = rw same v
Reserves-IsValid a port free r a' v (e, m) = m.valid

-- The state of a port, with what it says of its index, its flag and its slot.
data Kind (a : PortAllocator) (port : ℕ) : Type 0 where
  is_outside : state a port ≡ outside → index a port ≡ none → Kind a port
  is_pinned :
      (i : ℕ)
      → state a port ≡ pinned
      → index a port ≡ some i
      → reserved_at a i ≡ true
      → get_elem? a.slot i ≡ some taken
      → Kind a port
  is_held :
      (i : ℕ)
      → state a port ≡ held
      → index a port ≡ some i
      → reserved_at a i ≡ false
      → get_elem? a.slot i ≡ some taken
      → Kind a port
  is_free :
      (i at : ℕ)
      → state a port ≡ free
      → index a port ≡ some i
      → reserved_at a i ≡ false
      → get_elem? a.slot i ≡ some at
      → at ≢ taken
      → Kind a port

module _ (a : PortAllocator) (port : ℕ) (v : IsValid a) where
  kind : Kind a port
  unfolding state state_at slot_at
  kind = elim (Option-cases (index a port)) [
    | inl e ↦ is_outside (ground arith) e
    | inr (i, e) ↦
        let (at, here, _) = slot_of_state a port i v e in
        elim (Bool-cases (reserved_at a i)) [
          | inl yes' ↦ is_pinned i (ground arith) e yes' (v.unlisted i yes')
          | inr no' ↦ elim (Bool-cases (at == taken)) [
            | inl gone ↦ is_held i (ground arith) e no' (ground arith)
            | inr there ↦ is_free i at (ground arith) e no' here (ground arith)
          ]
        ]
  ]

  pin_free :
      (i : ℕ) (a' : PortAllocator)
      → Moved a port held a'
      → get_elem? a'.slot i ≡ some taken
      → index a' port ≡ some i
      → Moved a port pinned (record a' { reserved = set a'.reserved i true })
  pin_free i a' m gone known =
      let bound = (index-some a' port i known).1 in
      record {
        valid = flag-IsValid a' i true m.valid (omega (arith, m.valid.reserved_length)) (λ _. gone);
        moved = λ q. ground (arith, state-flag a' i port true q m.valid known gone, m.moved q);
      }

  -- Over a well-formed space `reserve` pins a free port, which changes no other, and refuses any other
  -- port with the error of its state, which changes nothing.
  pub reserve-Reserves : Reserves a port (state a port) (reserve a port).0 (reserve a port).1
  unfolding reserve Reserves
  reserve-Reserves = elim kind [
    | is_outside s e ↦ rw s (rw (e, reserve) (refl, refl))
    | is_pinned i s e r t ↦ rw s (ground (arith, e, r, t))
    | is_held i s e r t ↦ rw s (ground (arith, e, r, t))
    | is_free i at s e r t n ↦
        let (a', tk, m, gone, known) = take-Moved a port i at v e r t n in
        rw s (ground (arith, e, r, t, n, tk, pin_free i a' m gone known))
  ]

  -- Over a well-formed space `release` frees a port that a flow holds, and changes no other; for a
  -- pinned, free or foreign port it changes nothing.
  pub release-Moved :
      ((state a port ≡ held) × Moved a port free (release a port))
      ⊎ ((state a port ≢ held) × (release a port ≡ a))
  unfolding release slot_at
  release-Moved = elim kind [
    | is_outside s e ↦ inr (ground arith, ground arith)
    | is_pinned i s e r t ↦ inr (ground arith, ground arith)
    | is_held i s e r t ↦
        let back : release a port ≡ push_free a i port = ground arith in
        inl (
          s,
          rw back (record {
            valid = push_free-IsValid a v i port e t r;
            moved = state-push_free a v i port e t r;
          }),
        )
    | is_free i at s e r t n ↦ inr (ground arith, ground arith)
  ]

  -- Over a well-formed space `unreserve` frees a pinned port, changes no other and answers true; for
  -- any other port it answers false and changes nothing.
  pub unreserve-Moved :
      ((state a port ≡ pinned)
        × ((unreserve a port).0 ≡ true)
        × Moved a port free (unreserve a port).1)
      ⊎ ((state a port ≢ pinned) × (unreserve a port ≡ (false, a)))
  unfolding unreserve
  unreserve-Moved = elim kind [
    | is_outside s e ↦ inr (ground arith, ground arith)
    | is_pinned i s e r t ↦
        let b : PortAllocator = record a { reserved = set a.reserved i false } in
        let bound = (index-some a port i e).1 in
        let vb = flag-IsValid a i false v (omega (arith, v.reserved_length)) (λ h. t) in
        let eb : index b port ≡ some i = index_cong a b port refl refl refl ∙ e in
        let rb : reserved_at b i ≡ false =
          ground (arith, reserved_at-set a i i false, v.reserved_length) in
        let back : unreserve a port ≡ (true, push_free b i port) = ground arith in
        inl (
          s,
          ap (λ x. x.0) back,
          rw back (record {
            valid = push_free-IsValid b vb i port eb t rb;
            moved = λ q.
                ground
                  (arith, state-push_free b vb i port eb t rb q, state-flag a i port false q v e t);
          }),
        )
    | is_held i s e r t ↦ inr (ground arith, ground arith)
    | is_free i at s e r t n ↦ inr (ground arith, ground arith)
  ]
