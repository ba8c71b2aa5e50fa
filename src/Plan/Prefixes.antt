-- ===== src/Plan/Prefixes.antt =====
-- crates/warren-bolthole-core/src/plan.rs: the test that an address lies in a network, by the first bits
-- of the two.
use Prim.Native.Nat.{bit_and, bit_xor}
use native.Mathlib.Nat.{
  pow-suc, mul-sub, mod-eq_of_lt, mul-add-mod_self_left, div-lt_iff_lt-mul, mul-div_left,
  div-div-eq-div-mul, div-eq_of_lt, one-mul, mul_comm, mul-one, mul-le-mul_right,
}
use warren_sdk_rs.Prelude.{
  ℕ, zero, suc, ◌+◌, ◌-◌, ◌*◌, ◌/◌, ◌%◌, ◌^◌, ◌≤◌, ◌<◌, Bool, true, false, some, not, ◌&&◌, ◌≡◌,
  sym, ap, ◌∙◌, subst, ◌==◌, arith,
}
use warren_sdk_rs.Prelude.Masks.{
  bit_and-zero, bit_and-ones, bit_and-shift, bit_xor-shift, bit_xor-one, pow-pos, mul_pow-suc,
}
use warren_sdk_rs.Plan.{mask, in_net, sibling, Networks}

-- A base and a prefix of a network: no bit stands after the prefix.
pub record Aligned (w : ℕ) (net : ℕ × ℕ) : Type 0 where
  pub short : net.1 ≤ w
  pub low : net.0 < 2 ^ w
  pub clear : bit_and net.0 (mask w net.1) ≡ net.0

-- What the program relies on: a network has an aligned address and prefix, and `new` accepts an
-- aligned base, as the network of that base and prefix, and `contains` reads the first bits of an
-- address.
pub record Lawful (w : ℕ) {N : Type 0} (ip : Networks N) : Type 0 where
  pub valid : (net : N) → Aligned w (ip.network_address net, ip.netmask net)
  pub accepts :
      (base prefix : ℕ)
      → Aligned w (base, prefix)
      → (net : N) × (ip.new base prefix ≡ some net)
        × (ip.network_address net ≡ base)
        × (ip.netmask net ≡ prefix)
  pub member :
      (net : N) (a : ℕ)
      → a < 2 ^ w
      → ip.contains net a ≡ in_net w a (ip.network_address net, ip.netmask net)

-- The first `l` bits of two addresses of `w` bits are the same.
unfoldable pub same : ℕ → ℕ → ℕ → ℕ → Bool
same w l a b = a / 2 ^ (w - l) == b / 2 ^ (w - l)

pub pow-add : (p k : ℕ) → 2 ^ (p + k) ≡ 2 ^ p * 2 ^ k
pow-add p zero = ap (λ (t : ℕ). 2 ^ t) {y = p} (omega arith) ∙ sym (mul-one (2 ^ p))
pow-add p (suc k) =
    let step : 2 ^ (p + suc k) ≡ 2 ^ (p + k) * 2 =
      ap (λ (t : ℕ). 2 ^ t) {y = suc (p + k)} (omega arith) ∙ pow-suc 2 (p + k) in
    step ∙ ap (λ (t : ℕ). t * 2) (pow-add p k) ∙ sym (mul_pow-suc k (2 ^ p))

-- The shifted ones, cut off at `w`.
ones-shift : (w p k : ℕ) → w ≡ p * k → 0 < p → 0 < k → (w - 1) * k % w ≡ (p - 1) * k
ones-shift w p k e hp hk =
    let low : (p - 1) * k ≡ w - k =
      omega (arith, mul_comm (p - 1) k, mul-sub k p 1, mul_comm p k, e, mul-one k) in
    let above : k ≤ w = omega (arith, mul-le-mul_right k hp, e, one-mul k) in
    let wide : w ≤ w * k = omega (arith, mul-le-mul_right w hk, mul_comm w k, one-mul w) in
    let split : (w - 1) * k ≡ w * (k - 1) + (p - 1) * k = omega (
      arith,
      mul_comm (w - 1) k,
      mul-sub k w 1,
      mul_comm w k,
      mul-sub w k 1,
      mul-one w,
      mul-one k,
      low,
      above,
      wide,
    ) in
    ap (λ (t : ℕ). t % w) split
    ∙ mul-add-mod_self_left w (k - 1) ((p - 1) * k)
    ∙ mod-eq_of_lt (omega (arith, low, above, hk))

mask_lem : (p k : ℕ) → mask (suc p + k) (suc p) ≡ (2 ^ suc p - 1) * 2 ^ k
unfolding mask
mask_lem p k =
    let some_bits : (suc p == 0) ≡ false = ground arith in
    let shift : suc p + k - suc p ≡ k = omega arith in
    rw some_bits (
      ap (λ (t : ℕ). (2 ^ (suc p + k) - 1) * 2 ^ t % 2 ^ (suc p + k)) shift
      ∙ ones-shift (2 ^ (suc p + k)) (2 ^ suc p) (2 ^ k) (pow-add (suc p) k) (pow-pos (suc p))
          (pow-pos k))

prefix_mask : (p k a : ℕ) → a < 2 ^ (p + k) → bit_and a (mask (p + k) p) ≡ a / 2 ^ k * 2 ^ k
unfolding mask
prefix_mask zero k a h =
    let small : a < 2 ^ k = subst (λ (t : ℕ). a < 2 ^ t) {y = k} (omega arith) h in
    let none_left : a / 2 ^ k * 2 ^ k ≡ 0 =
      ap (λ (t : ℕ). t * 2 ^ k) (div-eq_of_lt small) ∙ omega arith in
    bit_and-zero a ∙ sym none_left
prefix_mask (suc p) k a h =
    let below : a / 2 ^ k < 2 ^ suc p =
      (div-lt_iff_lt-mul (pow-pos k)).1 (subst (λ (t : ℕ). a < t) (pow-add (suc p) k) h) in
    ap (bit_and a) (mask_lem p k)
    ∙ bit_and-shift k a (2 ^ suc p - 1)
    ∙ ap (λ (t : ℕ). t * 2 ^ k) (bit_and-ones (suc p) (a / 2 ^ k) below)

-- The mask of `l` bits clears the last `w - l` bits.
pub bit_and-mask :
    (w l a : ℕ) → l ≤ w → a < 2 ^ w → bit_and a (mask w l) ≡ a / 2 ^ (w - l) * 2 ^ (w - l)
bit_and-mask w l a h =
    subst (λ (v : ℕ). a < 2 ^ v → bit_and a (mask v l) ≡ a / 2 ^ (w - l) * 2 ^ (w - l))
      {x = l + (w - l)} (omega arith) (prefix_mask l (w - l) a)

times-injective : (x y k : ℕ) → 0 < k → x * k ≡ y * k → x ≡ y
times-injective x y k h e = sym (mul-div_left x h) ∙ ap (λ (t : ℕ). t / k) e ∙ mul-div_left y h

times-== : (x y k : ℕ) → 0 < k → (x * k == y * k) ≡ (x == y)
times-== x y k h = ground (arith, times-injective x y k h, ap (λ (t : ℕ). t * k) {x = x} {y = y})

-- The source's test reads the first bits of the two addresses.
pub in_net_lem : (w l a b : ℕ) → l ≤ w → a < 2 ^ w → b < 2 ^ w → in_net w a (b, l) ≡ same w l a b
unfolding in_net same
in_net_lem w l a b h ha hb =
    ap (λ (t : ℕ). t == bit_and b (mask w l)) (bit_and-mask w l a h ha)
    ∙ ap (λ (t : ℕ). a / 2 ^ (w - l) * 2 ^ (w - l) == t) (bit_and-mask w l b h hb)
    ∙ times-== (a / 2 ^ (w - l)) (b / 2 ^ (w - l)) (2 ^ (w - l)) (pow-pos (w - l))

-- The quotient for one bit less.
pub shorter : (w l a : ℕ) → suc l ≤ w → a / 2 ^ (w - l) ≡ a / 2 ^ (w - suc l) / 2
shorter w l a h =
    let k : ℕ = w - suc l in
    ap (λ (t : ℕ). a / 2 ^ t) {y = suc k} (omega arith)
    ∙ ap (λ (t : ℕ). a / t) (pow-suc 2 k)
    ∙ sym (div-div-eq-div-mul a (2 ^ k) 2)

pub same_shorter : (w l a b : ℕ) → suc l ≤ w → same w (suc l) a b ≡ true → same w l a b ≡ true
unfolding same
same_shorter w l a b h e = ground (
  arith,
  shorter w l a h,
  shorter w l b h,
  ap (λ (t : ℕ). t / 2) {x = a / 2 ^ (w - suc l)} {y = b / 2 ^ (w - suc l)},
)

pub same_coarser : (d w l a b : ℕ) → l + d ≤ w → same w (l + d) a b ≡ true → same w l a b ≡ true
same_coarser zero w l a b h e = subst (λ (m : ℕ). same w m a b ≡ true) (omega arith) e
same_coarser (suc d) w l a b h e = same_coarser d w l a b (omega arith) (
    same_shorter w (l + d) a b (omega arith)
      (subst (λ (m : ℕ). same w m a b ≡ true) (omega arith) e))

-- The sibling of a prefix: the same bits but for the last, which is flipped.
pub sibling_value :
    (w l base : ℕ)
    → suc l ≤ w
    → base < 2 ^ w
    → sibling w base (suc l) ≡ bit_xor (base / 2 ^ (w - suc l)) 1 * 2 ^ (w - suc l)
unfolding sibling
sibling_value w l base h hb =
    ap (λ (t : ℕ). bit_xor t (2 ^ (w - suc l))) (bit_and-mask w (suc l) base h hb)
    ∙ bit_xor-shift (w - suc l) (base / 2 ^ (w - suc l))

pub flipped : (x y : ℕ) → (x == bit_xor y 1) ≡ ((x / 2 == y / 2) && not (x == y))
flipped x y = ground (arith, bit_xor-one y)
