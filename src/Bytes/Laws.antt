-- ===== src/Bytes/Laws.antt =====
-- Reads within bounds, and writes read back.
use warren_sdk_rs.Prelude.{
  Bool, true, false, sym, ◌∙◌, Bool-cases, ℕ, zero, suc, ◌+◌, ◌-◌, ◌≤◌, ◌<◌, ◌≡◌, ◌⊎◌, inl, inr,
  refl, ap, ◌&&◌, none, some, List, [], ◌∷◌, ◌++◌, arith, ltb, leb, if◌then◌else◌, length,
  get_elem?, get_elem?-some,
}
use warren_sdk_rs.Bytes.{
  Checked, ok, err, panic, PacketError, ◌>>=◌, get_range, index, index16, bytes, slice, overwrite,
  copy_at, from_be,
}

-- The byte at a place, 0 past the end.
unfoldable pub byte : List ℕ → ℕ → ℕ
byte pkt i = elim (get_elem? pkt i) [ none ↦ 0 | some b ↦ b ]

pub get_elem?-byte : (pkt : List ℕ) (i : ℕ) → i < length pkt → get_elem? pkt i ≡ some (byte pkt i)
unfolding byte
get_elem?-byte pkt i h = let (b, e) = get_elem?-some pkt i h in rw (e, byte)

pub index-byte : (pkt : List ℕ) (i : ℕ) → i < length pkt → index pkt i ≡ ok (byte pkt i)
unfolding index
index-byte pkt i h = rw (get_elem?-byte pkt i h, index)

pub index16-bytes :
    (pkt : List ℕ) (i : ℕ)
    → i + 1 < length pkt
    → index16 pkt i ≡ ok (from_be (byte pkt i) (byte pkt (i + 1)))
unfolding index16
index16-bytes pkt i h = rw (index-byte pkt i (omega arith), index-byte pkt (i + 1) h)

pub length-overwrite : (at : ℕ) (new pkt : List ℕ) → length (overwrite at new pkt) ≡ length pkt
unfolding overwrite
length-overwrite at new [] = refl
length-overwrite zero [] (b ∷ pkt) = refl
length-overwrite zero (n ∷ new) (b ∷ pkt) = ap suc (length-overwrite zero new pkt)
length-overwrite (suc at) new (b ∷ pkt) = ap suc (length-overwrite at new pkt)

pub byte-overwrite :
    (at i : ℕ) (new pkt : List ℕ)
    → at + length new ≤ length pkt
    → byte (overwrite at new pkt) i
      ≡ (if leb at i && ltb i (at + length new) then byte new (i - at) else byte pkt i)
unfolding overwrite byte get_elem?
byte-overwrite at i new [] h = ground arith
byte-overwrite zero i [] (b ∷ pkt) h = ground arith
byte-overwrite zero zero (n ∷ new) (b ∷ pkt) h = ground arith
byte-overwrite zero (suc i) (n ∷ new) (b ∷ pkt) h =
    ground (arith, byte-overwrite zero i new pkt (omega arith))
byte-overwrite (suc at) zero new (b ∷ pkt) h = ground arith
byte-overwrite (suc at) (suc i) new (b ∷ pkt) h =
    ground (arith, byte-overwrite at i new pkt (omega arith))

pub slice-bytes :
    (at n : ℕ) (pkt : List ℕ) → at + n ≤ length pkt → slice at n pkt ≡ ok (bytes at n pkt)
unfolding slice
slice-bytes at n pkt h = ground arith

pub copy_at-overwrite :
    (at : ℕ) (new pkt : List ℕ)
    → at + length new ≤ length pkt
    → copy_at at new pkt ≡ ok (overwrite at new pkt)
unfolding copy_at
copy_at-overwrite at new pkt h = ground arith

pub length-bytes : (at n : ℕ) (pkt : List ℕ) → at + n ≤ length pkt → length (bytes at n pkt) ≡ n
unfolding bytes
length-bytes at zero pkt h = refl
length-bytes at (suc n) pkt h =
    let (b, e) = get_elem?-some pkt at (omega arith) in
    rw (e, bytes) (ap suc (length-bytes (suc at) n pkt (omega arith)))

pub bytes-cons : (at n x : ℕ) (pkt : List ℕ) → bytes (suc at) n (x ∷ pkt) ≡ bytes at n pkt
unfolding bytes get_elem?
bytes-cons at zero x pkt = refl
bytes-cons at (suc n) x pkt = ground (arith, bytes-cons (suc at) n x pkt)

-- The bytes of a buffer from its start on.
pub bytes-append : (xs ys : List ℕ) → bytes 0 (length xs) (xs ++ ys) ≡ xs
unfolding bytes get_elem?
bytes-append [] ys = refl
bytes-append (x ∷ xs) ys = ground (arith, bytes-cons 0 (length xs) x (xs ++ ys), bytes-append xs ys)

pub bytes-whole : (xs : List ℕ) → bytes 0 (length xs) xs ≡ xs
unfolding bytes get_elem?
bytes-whole [] = refl
bytes-whole (x ∷ xs) = ground (arith, bytes-cons 0 (length xs) x xs, bytes-whole xs)

pub Checked-cases {ℓ} :
    {A : Type ℓ} (r : Checked A)
    → ((a : A) × (r ≡ ok a)) ⊎ (((e : PacketError) × (r ≡ err e)) ⊎ (r ≡ panic))
Checked-cases (ok a) = inl (a, refl)
Checked-cases (err e) = inr (inl (e, refl))
Checked-cases panic = inr (inr refl)

-- The code returns a value or an error: it does not panic.
pub data Returns {ℓ} {A : Type ℓ} : Checked A → Type ℓ where
  value : (a : A) → Returns (ok a)
  error : (e : PacketError) → Returns (err e)

pub Returns-panic {ℓ} : {A : Type ℓ} → Returns {A = A} panic → ⊥
Returns-panic h = elim h [ ]

pub then-Returns {ℓ κ} :
    {A : Type ℓ} {B : Type κ} (m : Checked A) (f : A → Checked B)
    → Returns m
    → ((a : A) → Returns (f a))
    → Returns (m >>= f)
then-Returns _ f (value a) k = k a
then-Returns _ f (error e) k = error e

pub if-Returns {ℓ} :
    {A : Type ℓ} (b : Bool) (x y : Checked A) → Returns x → Returns y → Returns (if b then x else y)
if-Returns true x y h k = h
if-Returns false x y h k = k

pub length-get_range :
    (pkt : List ℕ) (at end : ℕ) {b : List ℕ} → get_range pkt at end ≡ some b → length b ≡ end - at
unfolding get_range
length-get_range pkt at end {b = b} e = elim (Bool-cases (leb at end && leb end (length pkt))) [
  | inr f ↦ absurd (ground (arith, e, f))
  | inl f ↦
      let same : some (bytes at (end - at) pkt) ≡ some b = sym (rw f refl) ∙ e in
      ground (arith, same, f, length-bytes at (end - at) pkt (ground (arith, f)))
]
