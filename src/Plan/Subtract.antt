-- ===== src/Plan/Subtract.antt =====
-- crates/warren-bolthole-core/src/plan.rs: what is left of a list of networks once one is cut out.
use Prim.Native.Nat.{bit_and, bit_xor}
use native.Mathlib.Nat.{mul-div_left, pow-suc, div-lt_iff_lt-mul}
use warren_sdk_rs.Prelude.{
  ℕ, zero, suc, ◌+◌, ◌-◌, ◌*◌, ◌/◌, ◌^◌, ◌≤◌, ◌<◌, true, false, not, ◌&&◌, ◌≡◌, ◌↔◌, sym, ap, ◌∙◌,
  subst, ◌==◌, ltb, inl, inr, Bool-cases, arith, any,
}
use warren_sdk_rs.Prelude.Bits.{xor_lt}
use warren_sdk_rs.Prelude.Masks.{pow-pos}
use warren_sdk_rs.Plan.{mask, in_net, sibling, siblings, cut}
use warren_sdk_rs.Plan.Prefixes.{
  same, pow-add, in_net_lem, same_shorter, same_coarser, sibling_value, flipped, shorter, Aligned,
}

flip_lt : (l x : ℕ) → x < 2 ^ suc l → bit_xor x 1 < 2 ^ suc l
flip_lt l x h = xor_lt (suc l) x 1 h (omega (arith, pow-suc 2 l, pow-pos l))

module _ (w base : ℕ) (hb : base < 2 ^ w) where
  pub sibling_lt : (l : ℕ) → suc l ≤ w → sibling w base (suc l) < 2 ^ w
  sibling_lt l h =
      let k : ℕ = w - suc l in
      let whole : 2 ^ suc l * 2 ^ k ≡ 2 ^ w =
        sym (pow-add (suc l) k) ∙ ap (λ (t : ℕ). 2 ^ t) (omega arith) in
      let top : base / 2 ^ k < 2 ^ suc l =
        (div-lt_iff_lt-mul (pow-pos k)).1 (subst (λ (t : ℕ). base < t) (sym whole) hb) in
      let flip : ℕ = bit_xor (base / 2 ^ k) 1 in
      let lower : flip * 2 ^ k / 2 ^ k < 2 ^ suc l =
        subst (λ (t : ℕ). t < 2 ^ suc l) (sym (mul-div_left flip (pow-pos k)))
          (flip_lt l (base / 2 ^ k) top) in
      let scale : (flip * 2 ^ k / 2 ^ k < 2 ^ suc l) ↔ (flip * 2 ^ k < 2 ^ suc l * 2 ^ k) =
        div-lt_iff_lt-mul (pow-pos k) in
      subst (λ (t : ℕ). t < 2 ^ w) (sym (sibling_value w l base h hb))
        (subst (λ (t : ℕ). flip * 2 ^ k < t) whole (scale.0 lower))

  sibling-same :
      (l a : ℕ)
      → suc l ≤ w
      → a < 2 ^ w
      → in_net w a (sibling w base (suc l), suc l)
        ≡ (same w l a base && not (same w (suc l) a base))
  unfolding same
  sibling-same l a h ha =
      let k : ℕ = w - suc l in
      let quotient : sibling w base (suc l) / 2 ^ k ≡ bit_xor (base / 2 ^ k) 1 =
        ap (λ (t : ℕ). t / 2 ^ k) (sibling_value w l base h hb)
        ∙ mul-div_left (bit_xor (base / 2 ^ k) 1) (pow-pos k) in
      in_net_lem w (suc l) a (sibling w base (suc l)) h ha (sibling_lt l h)
      ∙ ap (λ (t : ℕ). a / 2 ^ k == t) quotient
      ∙ flipped (a / 2 ^ k) (base / 2 ^ k)
      ∙ ap (λ (t : ℕ). (t == base / 2 ^ k / 2) && not (a / 2 ^ k == base / 2 ^ k))
          (sym (shorter w l a h))
      ∙ ap (λ (t : ℕ). (a / 2 ^ (w - l) == t) && not (a / 2 ^ k == base / 2 ^ k))
          (sym (shorter w l base h))

  -- The siblings from one prefix of `base` to a longer one cover what has the first and not the second.
  siblings-same :
      (n l a : ℕ)
      → l + n ≤ w
      → a < 2 ^ w
      → any (in_net w a) (siblings w base (suc l) n)
        ≡ (same w l a base && not (same w (l + n) a base))
  unfolding any siblings
  siblings-same zero l a h ha =
      let e : same w (l + 0) a base ≡ same w l a base =
        ap (λ (t : ℕ). same w t a base) {x = l + 0} {y = l} (omega arith) in
      ground (arith, e)
  siblings-same (suc n) l a h ha =
      let rest : any (in_net w a) (siblings w base (suc l + 1) n)
          ≡ (same w (suc l) a base && not (same w (suc l + n) a base)) =
        ap (λ (t : ℕ). any (in_net w a) (siblings w base t n)) {y = suc (suc l)} (omega arith)
        ∙ siblings-same n (suc l) a (omega arith) ha in
      let e : same w (l + suc n) a base ≡ same w (suc l + n) a base =
        ap (λ (t : ℕ). same w t a base) {x = l + suc n} {y = suc l + n} (omega arith) in
      ground (
        arith,
        e,
        rest,
        sibling-same l a (omega arith) ha,
        same_shorter w l a base (omega arith),
        same_coarser n w (suc l) a base (omega arith),
      )

module _ (w a base prefix nb np : ℕ) (ha : a < 2 ^ w) (hb : base < 2 ^ w) (hp : prefix ≤ w)
    (h : Aligned w (nb, np)) where
  below : (b l : ℕ) → l ≤ prefix → same w prefix a b ≡ true → same w l a b ≡ true
  below b l hl e =
      same_coarser (prefix - l) w l a b (omega arith)
        (subst (λ (m : ℕ). same w m a b ≡ true) (omega arith) e)

  -- `base` lies in the network.
  base_in : (bit_and base (mask w np) == nb) ≡ same w np base nb
  unfolding in_net same
  base_in =
      ap (λ (t : ℕ). bit_and base (mask w np) == t) (sym h.clear)
      ∙ in_net_lem w np base nb h.short hb h.low

  net_in : (bit_and nb (mask w prefix) == bit_and base (mask w prefix)) ≡ same w prefix nb base
  unfolding mask in_net
  net_in = in_net_lem w prefix nb base hp h.low hb

  Covered : Type 0
  Covered =
      any (in_net w a) (cut w base prefix (nb, np)) ≡ (same w np a nb && not (same w prefix a base))

  -- Two addresses that agree with a third agree.
  trans_same : (l x y z : ℕ) → same w l x y ≡ true → same w l x z ≡ true → same w l y z ≡ true
  unfolding same
  trans_same l x y z e f = ground (arith, e, f)

  sym_same : (l x y : ℕ) → same w l x y ≡ same w l y x
  unfolding same
  sym_same l x y = ground arith

  net_lem : in_net w a (nb, np) ≡ same w np a nb
  net_lem = in_net_lem w np a nb h.short ha h.low

  longer : ltb prefix np ≡ true → same w np a nb ≡ true → same w prefix a nb ≡ true
  longer e f =
      same_coarser (np - prefix) w prefix a nb (ground (arith, h.short))
        (subst (λ (m : ℕ). same w m a nb ≡ true) (ground arith) f)

  cut_long : ltb prefix np ≡ true → Covered
  unfolding cut any Covered
  cut_long e = ground (
    arith,
    net_in,
    net_lem,
    longer e,
    trans_same prefix a nb base,
    trans_same prefix nb a base,
    sym_same prefix a nb,
  )

  cut_apart : ltb prefix np ≡ false → same w np base nb ≡ false → Covered
  unfolding cut any Covered
  cut_apart e f = ground (
    arith,
    base_in,
    net_in,
    net_lem,
    below base np,
    below nb np,
    trans_same np a base nb,
    trans_same prefix nb base base,
  )

  cut_inside : ltb prefix np ≡ false → same w np base nb ≡ true → Covered
  unfolding cut any Covered
  cut_inside e f =
      let first : any (in_net w a) (siblings w base (np + 1) (prefix - np))
          ≡ any (in_net w a) (siblings w base (suc np) (prefix - np)) =
        ap (λ (t : ℕ). any (in_net w a) (siblings w base t (prefix - np))) (omega arith) in
      let last : same w (np + (prefix - np)) a base ≡ same w prefix a base =
        ap (λ (t : ℕ). same w t a base) {x = np + (prefix - np)} {y = prefix} (ground (arith, e)) in
      ground (
        arith,
        e,
        f,
        base_in,
        first,
        last,
        siblings-same w base hb (prefix - np) np a (ground (arith, e, hp)) ha,
        trans_same np base nb a,
        trans_same np nb base a,
        sym_same np base nb,
        sym_same np a nb,
        sym_same np a base,
      )

  pub cut-covers :
      any (in_net w a) (cut w base prefix (nb, np))
      ≡ (in_net w a (nb, np) && not (in_net w a (base, prefix)))
  unfolding Covered
  cut-covers =
      let covered : Covered = elim (Bool-cases (ltb prefix np)) [
        | inl e ↦ cut_long e
        | inr e ↦ elim (Bool-cases (same w np base nb)) [
          | inl f ↦ cut_inside e f
          | inr f ↦ cut_apart e f
        ]
      ] in
      rw (net_lem, in_net_lem w prefix a base hp ha hb) covered
