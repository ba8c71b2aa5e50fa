-- ===== src/Plan/Leftover.antt =====
-- crates/warren-bolthole-core/src/plan.rs: what a list of networks covers once one is cut out, and that
-- its networks stay aligned.
use Prim.Native.Nat.{bit_and}
use native.Mathlib.Nat.{mul-div_left}
use warren_sdk_rs.Prelude.{
  ℕ, zero, suc, ◌+◌, ◌-◌, ◌*◌, ◌/◌, ◌^◌, ◌≤◌, ◌<◌, Bool, true, false, not, ◌&&◌, ◌||◌, List, [],
  ◌∷◌, ◌++◌, ◌≡◌, refl, sym, ap, ◌∙◌, subst, ◌==◌, ltb, leb, arith, any, any-append, if◌then◌else◌,
}
use warren_sdk_rs.Prelude.Masks.{pow-pos}
use warren_sdk_rs.Plan.{mask, in_net, sibling, siblings, cut, subtract}
use warren_sdk_rs.Plan.Prefixes.{Aligned, sibling_value, bit_and-mask}
use warren_sdk_rs.Plan.Subtract.{sibling_lt, cut-covers}

unfoldable pub AllAligned : ℕ → List (ℕ × ℕ) → Type 0
AllAligned w [] = Unit
AllAligned w (net ∷ nets) = Aligned w net × AllAligned w nets

AllAligned-append :
    (w : ℕ) (xs ys : List (ℕ × ℕ)) → AllAligned w xs → AllAligned w ys → AllAligned w (xs ++ ys)
unfolding AllAligned
AllAligned-append w [] ys hx hy = hy
AllAligned-append w (x ∷ xs) ys (h, hx) hy = (h, AllAligned-append w xs ys hx hy)

AllAligned-if :
    (w : ℕ) (c : Bool) (xs ys : List (ℕ × ℕ))
    → AllAligned w xs
    → AllAligned w ys
    → AllAligned w (if c then xs else ys)
AllAligned-if w true xs ys hx hy = hx
AllAligned-if w false xs ys hx hy = hy

module _ (w base : ℕ) (hb : base < 2 ^ w) where
  sibling-Aligned : (l : ℕ) → suc l ≤ w → Aligned w (sibling w base (suc l), suc l)
  sibling-Aligned l h =
      let k : ℕ = w - suc l in
      let quotient : sibling w base (suc l) / 2 ^ k ≡ _ =
        ap (λ (t : ℕ). t / 2 ^ k) (sibling_value w l base h hb) ∙ mul-div_left _ (pow-pos k) in
      record {
        short = h;
        low = sibling_lt w base hb l h;
        clear =
            bit_and-mask w (suc l) (sibling w base (suc l)) h (sibling_lt w base hb l h)
            ∙ ap (λ (t : ℕ). t * 2 ^ k) quotient
            ∙ sym (sibling_value w l base h hb);
      }

  siblings-AllAligned : (n l : ℕ) → l + n ≤ w → AllAligned w (siblings w base (suc l) n)
  unfolding siblings AllAligned
  siblings-AllAligned zero l h = tt
  siblings-AllAligned (suc n) l h = (
    sibling-Aligned l (omega arith),
    subst (λ (t : ℕ). AllAligned w (siblings w base t n)) {x = suc (suc l)} (omega arith)
        (siblings-AllAligned n (suc l) (omega arith)),
  )

  cut-AllAligned :
      (prefix : ℕ) (net : ℕ × ℕ) → prefix ≤ w → Aligned w net → AllAligned w (cut w base prefix net)
  unfolding cut AllAligned
  cut-AllAligned prefix (nb, np) hp h =
      AllAligned-if w (ltb prefix np || not (bit_and base (mask w np) == nb))
        (if not (leb prefix np && (bit_and nb (mask w prefix) == bit_and base (mask w prefix)))
          then (nb, np) ∷ []
          else [])
        (siblings w base (np + 1) (prefix - np))
        (AllAligned-if w
          (not (leb prefix np && (bit_and nb (mask w prefix) == bit_and base (mask w prefix))))
          ((nb, np) ∷ []) [] (h, tt) tt)
        (subst (λ (t : ℕ). AllAligned w (siblings w base t (prefix - np))) {x = suc np} {y = np + 1}
          (omega arith) (siblings-AllAligned (prefix - np) np (omega (arith, h.short, hp))))

  pub subtract-AllAligned :
      (prefix : ℕ) (nets : List (ℕ × ℕ))
      → prefix ≤ w
      → AllAligned w nets
      → AllAligned w (subtract w nets base prefix)
  unfolding AllAligned subtract
  subtract-AllAligned prefix [] hp h = tt
  subtract-AllAligned prefix (net ∷ nets) hp (h, hs) =
      AllAligned-append w (cut w base prefix net) _ (cut-AllAligned prefix net hp h)
        (subtract-AllAligned prefix nets hp hs)

  -- What is left covers an address where the networks do and the one cut out does not.
  pub subtract-covers :
      (prefix a : ℕ) (nets : List (ℕ × ℕ))
      → prefix ≤ w
      → a < 2 ^ w
      → AllAligned w nets
      → any (in_net w a) (subtract w nets base prefix)
        ≡ (any (in_net w a) nets && not (in_net w a (base, prefix)))
  unfolding AllAligned subtract any
  subtract-covers prefix a [] hp ha h = refl
  subtract-covers prefix a ((nb, np) ∷ nets) hp ha (h, hs) = ground (
    arith,
    any-append (in_net w a) (cut w base prefix (nb, np)) (subtract w nets base prefix),
    cut-covers w a base prefix nb np ha hb hp h,
    subtract-covers prefix a nets hp ha hs,
  )
