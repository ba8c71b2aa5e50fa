-- ===== src/Index/Distinct.antt =====
-- The indexes that one generator hands out.
use Prim.Native.Nat.{bit_xor}
use warren_sdk_rs.Prelude.{
  ℕ, zero, suc, ◌+◌, ◌-◌, ◌%◌, ◌^◌, ◌≤◌, ◌<◌, ◌≡◌, ◌≢◌, ◌⊎◌, inl, inr, refl, sym, ap, ◌∙◌, arith,
  true, false, Bool-cases, Option, none, some, List, [], ◌∷◌, ◌==◌, leb, if◌then◌else◌,
}
use warren_sdk_rs.Prelude.Bits.{xor_lt, xor-injective}
use warren_sdk_rs.Index.{IndexGen, from_seed, shift, advance, next_rounds, next}
use warren_sdk_rs.Index.Issue.{issue, after, NotIn, Indexes}
use warren_sdk_rs.Index.Register.{InRange, shift-InRange, shift-injective}

-- The register after `k` shifts.
orbit : ℕ → ℕ → ℕ
orbit start zero = start
orbit start (suc k) = shift (orbit start k)

next_spent : (g : IndexGen) → g.exhausted ≡ true → next g ≡ some (none, g)
unfolding next next_rounds
next_spent g e = ground arith

-- A spent register refuses for good.
spent_after : (n : ℕ) (g : IndexGen) → g.exhausted ≡ true → after n g ≡ some g
unfolding after
spent_after zero g e = refl
spent_after (suc n) g e = rw (next_spent g e, after) (spent_after n g e)

module _ (start mask : ℕ) (s : InRange start) (m : mask < 2 ^ 24) where
  orbit-InRange : (k : ℕ) → InRange (orbit start k)
  unfolding orbit
  orbit-InRange zero = s
  orbit-InRange (suc k) = shift-InRange (orbit start k) (orbit-InRange k)

  cancel : (i d : ℕ) → orbit start i ≡ orbit start (i + d) → start ≡ orbit start d
  unfolding orbit
  cancel zero d e = let z : 0 + d ≡ d = omega arith in e ∙ ap (orbit start) z
  cancel (suc i) d e =
      let z : suc i + d ≡ suc (i + d) = omega arith in
      cancel i d (
        shift-injective (orbit start i) (orbit start (i + d)) (orbit-InRange i)
          (orbit-InRange (i + d)) (e ∙ ap (orbit start) z))

  -- The register has not come back to its start in `k` shifts.
  abbrev Clear : ℕ → Type 0
  Clear k = (j : ℕ) → 1 ≤ j → j ≤ k → orbit start j ≢ start

  orbit_ne : (i j : ℕ) → i < j → Clear j → orbit start i ≢ orbit start j
  orbit_ne i j h c e =
      let z : j ≡ i + (j - i) = omega arith in
      c (j - i) (omega arith) (omega arith) (sym (cancel i (j - i) (e ∙ ap (orbit start) z)))

  code : ℕ → ℕ
  code k = bit_xor (orbit start k - 1) mask

  code_ne : (i j : ℕ) → i < j → Clear j → code i ≢ code j
  unfolding code
  code_ne i j h c e = orbit_ne i j h c (
      omega (
        arith,
        xor-injective mask (orbit start i - 1) (orbit start j - 1) e,
        orbit-InRange i,
        orbit-InRange j,
      ))

  code_lt : (k : ℕ) → code k < 2 ^ 24
  unfolding code
  code_lt k = xor_lt 24 (orbit start k - 1) mask (omega (arith, orbit-InRange k)) m

  -- The generator after `k` shifts.
  record At (k : ℕ) (g : IndexGen) : Type 0 where
    here : g.lfsr ≡ orbit start k
    begin : g.initial ≡ start
    masked : g.mask ≡ mask
    clear : g.exhausted ≡ false → Clear k

  -- A register that comes back to its start says so.
  round :
      (j k : ℕ) (g : IndexGen)
      → At k g
      → (if shift g.lfsr == g.initial then true else g.exhausted) ≡ false
      → leb j k ≡ false
      → j ≤ suc k
      → orbit start j ≡ start
      → ⊥
  unfolding orbit
  round j k g a n last hi back =
      let e : j ≡ suc k = ground arith in
      let again : shift g.lfsr ≡ g.initial =
        ap shift a.here ∙ sym (ap (orbit start) e) ∙ back ∙ sym a.begin in
      ground arith

  advance-At :
      (k : ℕ) (g : IndexGen)
      → At k g
      → g.exhausted ≡ false
      → ((advance g).0 ≡ code k) × At (suc k) (advance g).1
  unfolding advance code orbit
  advance-At k g a e =
      let c = a.clear e in
      (
        rw (a.here, a.masked),
        record {
          here = ap shift a.here;
          begin = a.begin;
          masked = a.masked;
          clear = λ n j lo hi. elim (Bool-cases (leb j k)) [
            | inl before ↦ c j lo (ground arith)
            | inr last ↦ round j k g a n last hi
          ];
        },
      )

  -- What a call gives: the refusal of a spent register, or the code of a place not used before.
  Drawn : ℕ → Option ℕ × IndexGen → Type 0
  Drawn k (none, g) = g.exhausted ≡ true
  Drawn k (some index, g) =
      (p : ℕ) × (k' : ℕ) × (k ≤ p) × (p < k') × Clear p × At k' g × (index ≡ code p) × (index ≢ 0)

  rounds-Drawn :
      (f k : ℕ) (g : IndexGen)
      → At k g
      → ((r : Option ℕ × IndexGen) × (next_rounds (suc f) g ≡ some r) × Drawn k r)
        ⊎ ((g.exhausted ≡ false)
            × (code k ≡ 0)
            × Clear k
            × At (suc k) (advance g).1
            × (next_rounds (suc f) g ≡ next_rounds f (advance g).1))
  unfolding next_rounds Drawn
  rounds-Drawn f k g a = elim (Bool-cases g.exhausted) [
    | inl spent ↦ inl ((none, g), rw spent refl, spent)
    | inr live ↦
        let (drawn, a') = advance-At k g a live in
        elim (Bool-cases ((advance g).0 == 0)) [
          | inl zero' ↦
              inr (
                live,
                sym drawn ∙ ground arith,
                a.clear live,
                a',
                rw (live, zero', next_rounds) refl,
              )
          | inr index' ↦ inl (
            (some (advance g).0, (advance g).1),
            rw (live, index', next_rounds) refl,
            (k, suc k, omega arith, omega arith, a.clear live, a', drawn, ground arith),
          )
        ]
  ]

  Drawn-mono : (k : ℕ) (r : Option ℕ × IndexGen) → Drawn (suc k) r → Drawn k r
  unfolding Drawn
  Drawn-mono k (none, g) d = d
  Drawn-mono k (some index, g) (p, k', lo, hi, c, a, i, nz) = (p, k', omega arith, hi, c, a, i, nz)

  -- Two rounds are enough, for a register has no two codes zero in a row.
  next-Drawn :
      (k : ℕ) (g : IndexGen) → At k g → (r : Option ℕ × IndexGen) × (next g ≡ some r) × Drawn k r
  unfolding next
  next-Drawn k g a = elim (rounds-Drawn 1 k g a) [
    | inl done ↦ done
    | inr (live, zero', c, a', step) ↦ elim (rounds-Drawn 0 (suc k) (advance g).1 a') [
      | inl (r, e, d) ↦ (r, step ∙ e, Drawn-mono k r d)
      | inr (_, zero'', c', _, _) ↦ absurd (code_ne k (suc k) (omega arith) c' (zero' ∙ sym zero''))
    ]
  ]

  -- The codes from the place `k` on.
  abbrev Codes : ℕ → List ℕ → Type 0
  Codes k [] = Unit {0}
  Codes k (x ∷ xs) = (p : ℕ) × (k ≤ p) × Clear p × (x ≡ code p) × (x ≢ 0) × Codes (suc p) xs

  Codes-mono : (k k' : ℕ) (xs : List ℕ) → k ≤ k' → Codes k' xs → Codes k xs
  Codes-mono k k' [] h c = tt
  Codes-mono k k' (x ∷ xs) h (p, lo, c, i, nz, rest) = (p, omega arith, c, i, nz, rest)

  issue-Codes : (n k : ℕ) (g : IndexGen) → At k g → Codes k (issue n g)
  unfolding issue Drawn
  issue-Codes zero k g a = tt
  issue-Codes (suc n) k g a = go (issue-Codes n) (next-Drawn k g a)
    where
      go :
          ((k' : ℕ) (g' : IndexGen) → At k' g' → Codes k' (issue n g'))
          → (r : Option ℕ × IndexGen) × (next g ≡ some r) × Drawn k r
          → Codes k (issue (suc n) g)
      go rest ((none, g'), e, d) = rw (e, issue) tt
      go rest ((some index, g'), e, (p, k', lo, hi, c, a', i, nz)) =
          rw (e, issue) (p, lo, c, i, nz, Codes-mono (suc p) k' (issue n g') hi (rest k' g' a'))

  Codes-NotIn : (p k : ℕ) (xs : List ℕ) → p < k → Codes k xs → NotIn (code p) xs
  Codes-NotIn p k [] h c = tt
  Codes-NotIn p k (x ∷ xs) h (q, lo, c, i, nz, rest) =
      (λ e. code_ne p q (omega arith) c (e ∙ i), Codes-NotIn p (suc q) xs (omega arith) rest)

  Codes-Indexes : (k : ℕ) (xs : List ℕ) → Codes k xs → Indexes xs
  Codes-Indexes k [] c = tt
  Codes-Indexes k (x ∷ xs) (p, lo, c, i, nz, rest) = (
    omega arith,
    omega (arith, code_lt p),
    rw i (Codes-NotIn p (suc p) xs (omega arith) rest),
    Codes-Indexes (suc p) xs rest,
  )

  after_total : (n k : ℕ) (g : IndexGen) → At k g → (g' : IndexGen) × (after n g ≡ some g')
  unfolding after Drawn
  after_total zero k g a = (g, refl)
  after_total (suc n) k g a = go (after_total n) (next-Drawn k g a)
    where
      go :
          ((k' : ℕ) (g' : IndexGen) → At k' g' → (g'' : IndexGen) × (after n g' ≡ some g''))
          → (r : Option ℕ × IndexGen) × (next g ≡ some r) × Drawn k r
          → (g' : IndexGen) × (after (suc n) g ≡ some g')
      go rest ((none, g'), e, d) = (g', rw (e, after) (spent_after n g' d))
      go rest ((some index, g'), e, (p, k', lo, hi, c, a', i, nz)) = rw (e, after) (rest k' g' a')

start_of : (seed : ℕ) → ℕ
start_of seed = if seed % 2 ^ 24 == 0 then 1 else seed % 2 ^ 24

start_of-InRange : (seed : ℕ) → InRange (start_of seed)
unfolding start_of
start_of-InRange seed = ground arith

from_seed-At :
    (seed mask : ℕ)
    → At
        (start_of seed)
        (mask % 2 ^ 24)
        (start_of-InRange seed)
        (omega arith)
        0
        (from_seed seed mask)
unfolding from_seed start_of orbit
from_seed-At seed mask = record {
  here = refl;
  begin = refl;
  masked = refl;
  clear = λ e j lo hi. absurd (omega arith);
}

-- A generator never hands out an index twice, and each is non-zero and fits in 24 bits.
pub issue-Indexes : (n seed mask : ℕ) → Indexes (issue n (from_seed seed mask))
issue-Indexes n seed mask =
    Codes-Indexes (start_of seed) (mask % 2 ^ 24) (start_of-InRange seed) (omega arith) 0
      (issue n (from_seed seed mask))
      (issue-Codes (start_of seed) (mask % 2 ^ 24) (start_of-InRange seed) (omega arith) n 0
        (from_seed seed mask) (from_seed-At seed mask))

-- Every call comes to an end within the two rounds that `next` is given.
pub after-from_seed : (n seed mask : ℕ) → (g : IndexGen) × (after n (from_seed seed mask) ≡ some g)
after-from_seed n seed mask =
    after_total (start_of seed) (mask % 2 ^ 24) (start_of-InRange seed) (omega arith) n 0
      (from_seed seed mask) (from_seed-At seed mask)
