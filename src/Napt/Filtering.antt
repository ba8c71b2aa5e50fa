-- ===== src/Napt/Filtering.antt =====
-- Which packets from the tunnel `accept_downlink` of nat.rs lets in.
use warren_sdk_rs.Prelude.{
  ℕ, zero, suc, ◌≡◌, ◌⊎◌, refl, inl, inr, true, some, is_some, List, [], ◌∷◌, arith, ◌==◌, ==_iff,
  Bool-cases, get_elem?,
}
use warren_sdk_rs.Prelude.Map.{◌=?◌, nat_eq, lookup}
use warren_sdk_rs.Ip.{IpAddr}
use warren_sdk_rs.Napt.Types.{addr_eq, addr_beq_iff, SocketAddr, NatDrop, RemoteFlow, Mapping, Napt}
use warren_sdk_rs.Napt.Flow.{remote_index}
use warren_sdk_rs.Napt.Table.{Answer}
use warren_sdk_rs.Napt.Translate.Touch.{accept_downlink}

-- The mapping has sent to this remote before, or a flow was opened to it.
unfoldable pub Met : List RemoteFlow → IpAddr → ℕ → Type 0
Met remotes addr port =
    (at : ℕ) × (r : RemoteFlow) × (get_elem? remotes at ≡ some r)
    × (r.addr ≡ addr)
    × (r.port ≡ port)

remote_index-Met :
    (remotes : List RemoteFlow) (addr : IpAddr) (port : ℕ)
    → is_some (remote_index remotes addr port) ≡ true
    → Met remotes addr port
unfolding remote_index Met get_elem?
remote_index-Met [] addr port e = absurd (ground (arith, e))
remote_index-Met (r ∷ remotes) addr port e =
    let later : is_some (remote_index remotes addr port) ≡ true → Met (r ∷ remotes) addr port =
      λ met.
        let (at, r', g, a, p) = remote_index-Met remotes addr port met in (suc at, r', g, a, p) in
    elim (Bool-cases (r.addr =? addr)) [
      | inl a ↦ elim (Bool-cases (r.port == port)) [
        | inl p ↦ (0, r, refl, (addr_beq_iff r.addr addr).0 a, (==_iff r.port port).0 p)
        | inr p ↦ later (ground (arith, e, a, p))
      ]
      | inr a ↦ later (ground (arith, e, a))
    ]

Met-remote_index :
    (remotes : List RemoteFlow) (addr : IpAddr) (port at : ℕ) (r : RemoteFlow)
    → get_elem? remotes at ≡ some r
    → r.addr ≡ addr
    → r.port ≡ port
    → is_some (remote_index remotes addr port) ≡ true
unfolding remote_index get_elem?
Met-remote_index [] addr port at r g a p = absurd (ground (arith, g))
Met-remote_index (r' ∷ remotes) addr port zero r g a p =
    ground (arith, g, addr_beq_iff r.addr addr, ==_iff r.port port)
Met-remote_index (r' ∷ remotes) addr port (suc at) r g a p =
    ground (arith, Met-remote_index remotes addr port at r g a p)

module _ {R T : Type 0} where
  -- What `accept_downlink` does with a packet for the mapping `m`: `x` is its answer and the state.
  unfoldable pub Filters : Napt R T → Mapping → IpAddr → ℕ → Answer SocketAddr × Napt R T → Type 0
  Filters n m addr port x =
      (((Met m.remotes addr port ⊎ (m.pinned ≡ true)) × (x.0 ≡ Answer.ok m.internal))
        ⊎ (¬ (Met m.remotes addr port ⊎ (m.pinned ≡ true))
            × (x ≡ (Answer.err NatDrop.no_mapping, n))))

  -- `accept_downlink` lets a packet in exactly where the mapping is pinned or one of its flows is
  -- with the packet's remote address and port; it answers the mapping's endpoint inside. Any other
  -- packet is refused as `no_mapping`, and the translator is left as it was.
  pub accept_downlink-Filters :
      (n : Napt R T) (id : ℕ) (m : Mapping) (addr : IpAddr) (port flags now : ℕ)
      → lookup id n.mappings ≡ some m
      → Filters n m addr port (accept_downlink n id addr port flags now)
  unfolding accept_downlink Filters Met
  accept_downlink-Filters n id m addr port flags now e =
      let met = remote_index-Met m.remotes addr port in
      elim (Bool-cases (is_some (remote_index m.remotes addr port))) [
        | inl some_flow ↦ rw (e, some_flow, accept_downlink) (inl (inl (met some_flow), refl))
        | inr no_flow ↦ elim (Bool-cases m.pinned) [
          | inl p ↦ rw (e, no_flow, p, accept_downlink) (inl (inr refl, refl))
          | inr p ↦
              rw (e, no_flow, p, accept_downlink)
                (inr (
                  λ w. elim w [
                    | inl (at, r, g, a, q) ↦
                        absurd
                          (ground (arith, no_flow, Met-remote_index m.remotes addr port at r g a q))
                    | inr p' ↦ absurd (ground (arith, p'))
                  ],
                  refl,
                ))
        ]
      ]
