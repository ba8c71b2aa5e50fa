-- ===== src/Plan/Peers/Assignment.antt =====
-- crates/warren-bolthole-core/src/plan.rs: the pair of addresses that a peer is given.
use Prim.Native.Nat.{bit_or}
use native.Mathlib.Nat.{mul-add-div_right, div-eq_of_lt, div-lt_iff_lt-mul, pow-le-pow_right}
use warren_sdk_rs.Prelude.{
  ℕ, ◌+◌, ◌-◌, ◌*◌, ◌/◌, ◌^◌, ◌≤◌, ◌<◌, true, ◌≡◌, ◌≢◌, ◌↔◌, refl, sym, ap, ◌∙◌, subst, inl, inr,
  ◌⊎◌, Bool-cases, ltb, leb, arith, ltb→lt,
}
use warren_sdk_rs.Prelude.Outcomes.{Result, ok, err}
use warren_sdk_rs.Prelude.Masks.{bit_or-add, pow-pos}
use warren_sdk_rs.Plan.{in_net, Networks, PlanError, index_out_of_range}
use warren_sdk_rs.Plan.Prefixes.{same, in_net_lem, bit_and-mask, Aligned, Lawful, pow-add}
use warren_sdk_rs.Plan.Peers.{PeerPlan, last_of, gateway_v4, gateway_v6, address_for}

module _ (w base prefix : ℕ) (h : Aligned w (base, prefix)) where
  -- An aligned base is the product of its first bits and a power of two.
  base_value : base ≡ base / 2 ^ (w - prefix) * 2 ^ (w - prefix)
  base_value = sym h.clear ∙ bit_and-mask w prefix base h.short h.low

  host_sum : (i : ℕ) → i < 2 ^ (w - prefix) → bit_or base i ≡ base + i
  host_sum i hi =
      let k : ℕ = w - prefix in
      ap (λ (t : ℕ). bit_or t i) base_value
      ∙ bit_or-add k (base / 2 ^ k) i hi
      ∙ ap (λ (t : ℕ). t + i) (sym base_value)

  host_quotient :
      (i : ℕ) → i < 2 ^ (w - prefix) → (base + i) / 2 ^ (w - prefix) ≡ base / 2 ^ (w - prefix)
  host_quotient i hi =
      let k : ℕ = w - prefix in
      ap (λ (t : ℕ). (t + i) / 2 ^ k) base_value
      ∙ mul-add-div_right (pow-pos k) (base / 2 ^ k) i
      ∙ omega (arith, div-eq_of_lt hi)

  host_lt : (i : ℕ) → i < 2 ^ (w - prefix) → base + i < 2 ^ w
  host_lt i hi =
      let k : ℕ = w - prefix in
      let whole : 2 ^ prefix * 2 ^ k ≡ 2 ^ w =
        sym (pow-add prefix k) ∙ ap (λ (t : ℕ). 2 ^ t) (omega (arith, h.short)) in
      let top : (base / 2 ^ k < 2 ^ prefix) ↔ (base < 2 ^ prefix * 2 ^ k) =
        div-lt_iff_lt-mul (pow-pos k) in
      let scale : ((base + i) / 2 ^ k < 2 ^ prefix) ↔ (base + i < 2 ^ prefix * 2 ^ k) =
        div-lt_iff_lt-mul (pow-pos k) in
      subst (λ (t : ℕ). base + i < t) whole
        (scale.0 (
          subst (λ (t : ℕ). t < 2 ^ prefix) (sym (host_quotient i hi))
            (top.1 (subst (λ (t : ℕ). base < t) (sym whole) h.low))))

  host_in : (i : ℕ) → i < 2 ^ (w - prefix) → in_net w (base + i) (base, prefix) ≡ true
  unfolding same
  host_in i hi =
      in_net_lem w prefix (base + i) base h.short (host_lt i hi) h.low
      ∙ ground (arith, host_quotient i hi)

gateway_apart :
    (w base prefix : ℕ) (h : Aligned w (base, prefix)) (i : ℕ)
    → 2 ≤ i
    → i < 2 ^ (w - prefix)
    → base + i ≢ bit_or base 1
gateway_apart w base prefix h i two below =
    λ e. omega (arith, e, host_sum w base prefix h 1 (omega arith), two)

-- What a peer number is given, by the two subnets of the plan.
pub data Assigned (x y : ℕ × ℕ) (gateways : ℕ × ℕ) (index : ℕ)
    : Result (ℕ × ℕ) PlanError → Type 0 where
  assigned :
      2 ≤ index
      → index + 1 < 2 ^ (32 - x.1)
      → in_net 32 (x.0 + index) x ≡ true
      → in_net 128 (y.0 + index) y ≡ true
      → x.0 + index ≢ gateways.0
      → y.0 + index ≢ gateways.1
      → Assigned x y gateways index (ok (x.0 + index, y.0 + index))
  refused :
      (index < 2) ⊎ (2 ^ (32 - x.1) ≤ index + 1)
      → Assigned x y gateways index (err index_out_of_range)

module _ {N4 N6 : Type 0} (ip4 : Networks N4) (ip6 : Networks N6) where
  last_lem : (m : ℕ) → m ≤ 32 → last_of ip4 ip6 m ≡ 2 ^ m - 1
  unfolding last_of
  last_lem m h = elim (Bool-cases (leb 32 m)) [
    | inl e ↦ rw e (ap (λ (t : ℕ). 2 ^ t - 1) {x = 32} {y = m} (ground (arith, e)))
    | inr e ↦ rw e refl
  ]

  -- Where the IPv6 subnet leaves at least as many bits for the hosts as the IPv4 subnet does: a
  -- peer number is refused exactly where it is the network's own, the gateway's, or not below the
  -- last of the IPv4 subnet, and any other is given the address of that number in each subnet,
  -- which is not the gateway's.
  pub address_for-Assigned :
      Lawful 32 ip4
      → Lawful 128 ip6
      → (plan : PeerPlan N4 N6) (index : ℕ)
      → 32 - ip4.netmask plan.subnet_v4 ≤ 128 - ip6.netmask plan.subnet_v6
      → Assigned
          (ip4.network_address plan.subnet_v4, ip4.netmask plan.subnet_v4)
          (ip6.network_address plan.subnet_v6, ip6.netmask plan.subnet_v6)
          (gateway_v4 ip4 ip6 plan, gateway_v6 ip4 ip6 plan)
          index
          (address_for ip4 ip6 plan index)
  unfolding address_for gateway_v4 gateway_v6
  address_for-Assigned lawful4 lawful6 plan index wide =
      let h4 = lawful4.valid plan.subnet_v4 in
      let h6 = lawful6.valid plan.subnet_v6 in
      let k : ℕ = 32 - ip4.netmask plan.subnet_v4 in
      let last = last_lem k (omega arith) in
      elim (Bool-cases (ltb index 2)) [
        | inl e ↦ rw (address_for, e) (refused (inl (ltb→lt index 2 e)))
        | inr e ↦ elim (Bool-cases (leb (last_of ip4 ip6 k) index)) [
          | inl f ↦ rw (address_for, e, f) (refused (inr (ground (arith, f, last))))
          | inr f ↦
              let two : 2 ≤ index = ground (arith, e) in
              let below : index + 1 < 2 ^ k = ground (arith, f, last) in
              let more : 2 ^ k ≤ 2 ^ (128 - ip6.netmask plan.subnet_v6) =
                pow-le-pow_right (omega arith) wide in
              rw
                (
                  address_for,
                  e,
                  f,
                  host_sum 32 _ _ h4 index (omega (arith, below)),
                  host_sum 128 _ _ h6 index (omega (arith, below, more)),
                )
                (assigned two below (host_in 32 _ _ h4 index (omega (arith, below)))
                  (host_in 128 _ _ h6 index (omega (arith, below, more)))
                  (gateway_apart 32 _ _ h4 index two (omega (arith, below)))
                  (gateway_apart 128 _ _ h6 index two (omega (arith, below, more))))
        ]
      ]
