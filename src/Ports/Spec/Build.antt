-- ===== src/Ports/Spec/Build.antt =====
-- `build` of ports.rs: a fresh space is well formed, and what is free in it.
use mathlib.Core.List.{append_assoc, append-nil}
use warren_sdk_rs.Prelude.{
  ℕ, zero, suc, ◌+◌, ◌-◌, ◌^◌, ◌≤◌, ◌<◌, ◌≡◌, refl, sym, ◌∙◌, ap, Bool, false, not, none, some, inl,
  inr, arith, subst, length-push, Bool-cases, Option-cases, List, [], ◌∷◌, ◌++◌, ltb, leb, ◌==◌,
  ◌&&◌, ◌||◌, if◌then◌else◌, length, get_elem?, set, push, replicate, get_elem?-some,
}
use warren_sdk_rs.Ports.{
  PortAllocator, taken, slot_of, index, is_control, reserved_at, slot_at, build, build_free,
  build_slot, push_free,
}
use warren_sdk_rs.Ports.Slots.{free_slots}
use warren_sdk_rs.Ports.State.{outside, free, held, state, state_at}
use warren_sdk_rs.Ports.Valid.{IsValid}
use warren_sdk_rs.Ports.Valid.Take.{index-some}
use warren_sdk_rs.Ports.Valid.Keep.{push_free-IsValid}
use warren_sdk_rs.Ports.Spec.Moves.{state-push_free}

-- The ports `ps` belong to `a`, rise from `lo` on, and none of them is listed or pinned.
Fresh : PortAllocator → ℕ → List ℕ → Type 0
Fresh a lo [] = Unit {0}
Fresh a lo (p ∷ ps) = (lo ≤ p) × (state a p ≡ held) × Fresh a (p + 1) ps

unfoldable pub has : ℕ → List ℕ → Bool
has q [] = false
has q (p ∷ ps) = q == p || has q ps

-- The loop of `build`, started on the allocator `a`.
listing : PortAllocator → List ℕ → PortAllocator
listing a ps = record a { free = a.free ++ ps; slot = build_slot a.base (length a.free) ps a.slot }

held_slot :
    (a : PortAllocator) (p : ℕ)
    → state a p ≡ held
    → IsValid a
    → (i : ℕ) × (index a p ≡ some i)
      × (reserved_at a i ≡ false)
      × (get_elem? a.slot i ≡ some taken)
      × (i ≡ p - a.base)
unfolding state state_at slot_at
held_slot a p h v = elim (Option-cases (index a p)) [
  | inl e ↦ ground arith
  | inr (i, e) ↦
      let (at, f) = get_elem?-some a.slot i (index-some a p i e).1 in
      (i, e, ground arith, ground arith, omega (arith, index-some a p i e))
]

Fresh-mono :
    (a a' : PortAllocator) (lo lo' : ℕ) (ps : List ℕ)
    → ((q : ℕ) → lo' ≤ q → state a' q ≡ state a q)
    → lo' ≤ lo
    → Fresh a lo ps
    → Fresh a' lo ps
unfolding Fresh
Fresh-mono a a' lo lo' [] s h f = tt
Fresh-mono a a' lo lo' (p ∷ ps) s h f =
    (f.0, s p (omega arith) ∙ f.1, Fresh-mono a a' (p + 1) lo' ps s (omega arith) f.2)

listing-nil : (a : PortAllocator) → listing a [] ≡ a
unfolding listing build_slot
listing-nil a = ap (λ (f : List ℕ). record a { free = f }) (append-nil a.free)

-- One round of the loop is one `push_free`.
listing-push :
    (a : PortAllocator) (p : ℕ) (ps : List ℕ)
    → listing (push_free a (p - a.base) p) ps ≡ listing a (p ∷ ps)
unfolding listing push_free build_slot push
listing-push a p ps =
    ap
      (λ (f : List ℕ). record a {
        free = f;
        slot =
            build_slot a.base (length (a.free ++ p ∷ [])) ps
              (set a.slot (p - a.base) (slot_of (length a.free)));
      })
      (append_assoc a.free (p ∷ []) ps)
    ∙ ap
        (λ (n : ℕ). record a {
          free = a.free ++ p ∷ ps;
          slot = build_slot a.base n ps (set a.slot (p - a.base) (slot_of (length a.free)));
        })
        (length-push a.free p)

listing-IsValid :
    (a : PortAllocator) (lo : ℕ) (ps : List ℕ)
    → IsValid a
    → Fresh a lo ps
    → IsValid (listing a ps)
      × ((q : ℕ) → state (listing a ps) q ≡ (if has q ps then free else state a q))
unfolding Fresh has
listing-IsValid a lo [] v f =
    let same : listing a [] ≡ a = listing-nil a in (rw same v, λ q. rw same)
listing-IsValid a lo (p ∷ ps) v f =
    let (i, known, loose, gone, place) = held_slot a p f.1 v in
    let moved = state-push_free a v i p known gone loose in
    let next =
      listing-IsValid (push_free a i p) (p + 1) ps (push_free-IsValid a v i p known gone loose) (
        Fresh-mono a (push_free a i p) (p + 1) (p + 1) ps (λ q h. ground (arith, moved q))
          (omega arith) f.2) in
    let same = ap (λ (j : ℕ). listing (push_free a j p) ps) place ∙ listing-push a p ps in
    (
      subst IsValid same next.0,
      λ q. ap (λ (b : PortAllocator). state b q) (sym same) ∙ next.1 q ∙ ground (arith, moved q),
    )

-- A space before the loop: every port of it is out of the list.
bare : ℕ → ℕ → ℕ → Bool → PortAllocator
bare first span capacity keeps = record {
  base = first;
  free = [];
  slot = replicate span taken;
  reserved = replicate span false;
  capacity = capacity;
  keeps_control_range = keeps;
}

length-replicate {ℓ} : {A : Type ℓ} (n : ℕ) (a : A) → length (replicate n a) ≡ n
unfolding replicate
length-replicate zero a = refl
length-replicate (suc n) a = ap suc (length-replicate n a)

get_elem?-replicate {ℓ} :
    {A : Type ℓ} (n i : ℕ) (a : A)
    → get_elem? (replicate n a) i ≡ (if ltb i n then some a else none)
unfolding replicate get_elem?
get_elem?-replicate zero i a = ground arith
get_elem?-replicate (suc n) zero a = ground arith
get_elem?-replicate (suc n) (suc i) a = ground (arith, get_elem?-replicate n i a)

free_slots-replicate : (n : ℕ) → free_slots (replicate n taken) ≡ 0
unfolding replicate free_slots
free_slots-replicate zero = refl
free_slots-replicate (suc n) = omega (arith, free_slots-replicate n)

module _ (first span capacity : ℕ) (keeps : Bool) where
  not_reserved : (i : ℕ) → reserved_at (bare first span capacity keeps) i ≡ false
  unfolding reserved_at bare
  not_reserved i = ground (arith, get_elem?-replicate span i false)

  bare-IsValid : first + span ≤ 2 ^ 16 → IsValid (bare first span capacity keeps)
  unfolding bare get_elem?
  bare-IsValid h = record {
    fits = omega (arith, length-replicate span taken);
    reserved_length = length-replicate span false ∙ sym (length-replicate span taken);
    counted = free_slots-replicate span;
    listed = λ at port e. ground arith;
    slotted = λ i at e n. ground (arith, get_elem?-replicate span i taken, e, n);
    unlisted = λ i e. ground (arith, not_reserved i, e);
  }

  bare_state :
      (q : ℕ)
      → state (bare first span capacity keeps) q ≡ (
          if leb first q && (ltb q (first + span) && not (keeps && is_control q))
          then held
          else outside)
  unfolding state state_at slot_at index bare
  bare_state q = ground (
    arith,
    not_reserved (q - first),
    get_elem?-replicate span (q - first) taken,
    length-replicate span taken,
  )

  build_free-Fresh :
      (n port : ℕ)
      → first ≤ port
      → port + n ≤ first + span
      → Fresh (bare first span capacity keeps) port (build_free keeps n port)
  unfolding Fresh build_free
  build_free-Fresh zero port l h = tt
  build_free-Fresh (suc n) port l h =
      let rest = build_free-Fresh n (port + 1) (omega arith) (omega arith) in
      elim (Bool-cases (keeps && is_control port)) [
        | inl kept ↦ rw kept (weaken (port + 1) port _ (omega arith) rest)
        | inr open' ↦ rw open' (omega arith, bare_state port ∙ ground arith, rest)
      ]
    where
      weaken :
          (lo lo' : ℕ) (ps : List ℕ)
          → lo' ≤ lo
          → Fresh (bare first span capacity keeps) lo ps
          → Fresh (bare first span capacity keeps) lo' ps
      weaken lo lo' [] h f = tt
      weaken lo lo' (p ∷ ps) h f = (omega arith, f.1, f.2)

has-build_free :
    (keeps : Bool) (n port q : ℕ)
    → has q (build_free keeps n port)
      ≡ (leb port q && (ltb q (port + n) && not (keeps && is_control q)))
unfolding has build_free
has-build_free keeps zero port q = ground arith
has-build_free keeps (suc n) port q = elim (Bool-cases (q == port)) [
  | inl e ↦ ground (arith, has-build_free keeps n (port + 1) q)
  | inr e ↦ ground (arith, has-build_free keeps n (port + 1) q)
]

-- A fresh space over `first ..= last`, two 16-bit ports, is well formed, and exactly the ports of the range are free,
-- less the control range where the space keeps that.
pub build-IsValid :
    (first last : ℕ) (keeps : Bool)
    → first < 2 ^ 16
    → last < 2 ^ 16
    → IsValid (build first last keeps)
      × ((q : ℕ)
          → state (build first last keeps) q ≡ (
              if leb first q && (leb q last && not (keeps && is_control q)) then free else outside))
unfolding build listing bare
build-IsValid first last keeps hf hl =
    let span = last + 1 - first in
    let ports = build_free keeps span first in
    let start = bare first span (length ports) keeps in
    let (v, s) =
      listing-IsValid start first ports
        (bare-IsValid first span (length ports) keeps (ground arith))
        (build_free-Fresh first span (length ports) keeps span first (omega arith) (omega arith)) in
    (
      v,
      λ q.
          s q
          ∙ ground (
            arith,
            has-build_free keeps span first q,
            bare_state first span (length ports) keeps q,
          ),
    )
