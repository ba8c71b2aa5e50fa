-- ===== src/Napt/Sweep/Expiry.antt =====
-- What one round of the loop of `sweep` forgets.
use warren_sdk_rs.Prelude.{
  ℕ, ◌+◌, ◌*◌, ◌<◌, ◌≡◌, ◌∙◌, refl, ap, inl, inr, Bool, true, false, not, ◌&&◌, Option, none, some,
  List, [], ◌∷◌, arith, ltb, leb, ◌==◌, max, if◌then◌else◌, Option-cases, Bool-cases,
}
use warren_sdk_rs.Prelude.Map.{nat_eq, lookup}
use warren_sdk_rs.Napt.Types.{MapProto, FlowState, RemoteFlow, Mapping, NatConfig, Napt}
use warren_sdk_rs.Napt.Flow.{flow_timeout, initial_timeout, latest_deadline, deadline_of}
use warren_sdk_rs.Napt.Sweep.{sweep_entry}
use warren_sdk_rs.Napt.Identity.{
  Identity, identity, identity?, identity_at, remove_mapping-identity,
}

-- How long a flow may be idle, by its state, and a mapping before it has a flow, by its protocol.
unfoldable pub patience : NatConfig → FlowState → ℕ
patience config FlowState.udp_one_way = config.udp_initial
patience config FlowState.udp_answered = config.udp_established
patience config FlowState.tcp_syn = config.tcp_syn
patience config FlowState.tcp_established = config.tcp_established
patience config FlowState.tcp_closed = config.tcp_closing
patience config FlowState.icmp = config.icmp

unfoldable pub opening : NatConfig → MapProto → ℕ
opening config MapProto.tcp = config.tcp_syn
opening config MapProto.udp = config.udp_initial
opening config MapProto.icmp = config.icmp

-- Nothing was seen for the time given.
abbrev pub silent : ℕ → ℕ → ℕ → Bool
silent now seen time = leb (seen + time) now

unfoldable pub all_silent : NatConfig → ℕ → List RemoteFlow → Bool
unfolding patience
all_silent config now [] = true
all_silent config now (flow ∷ flows) =
    silent now flow.last_seen (patience config flow.state) && all_silent config now flows

-- The mapping and each of its flows have been idle past their time.
unfoldable pub idle : NatConfig → ℕ → Identity → Bool
unfolding opening all_silent
idle config now i =
    silent now i.last_seen (opening config i.proto) && all_silent config now i.remotes

-- The mapping is there, is no pinned forward, and is idle.
unfoldable pub expired_of : NatConfig → ℕ → Option Identity → Bool
unfolding idle
expired_of config now none = false
expired_of config now (some i) = not i.pinned && idle config now i

flow_timeout_lem :
    (config : NatConfig) (state : FlowState) → flow_timeout config state ≡ patience config state
unfolding patience
flow_timeout_lem config FlowState.udp_one_way = refl
flow_timeout_lem config FlowState.udp_answered = refl
flow_timeout_lem config FlowState.tcp_syn = refl
flow_timeout_lem config FlowState.tcp_established = refl
flow_timeout_lem config FlowState.tcp_closed = refl
flow_timeout_lem config FlowState.icmp = refl

initial_timeout_lem :
    (config : NatConfig) (proto : MapProto) → initial_timeout config proto ≡ opening config proto
unfolding opening
initial_timeout_lem config MapProto.tcp = refl
initial_timeout_lem config MapProto.udp = refl
initial_timeout_lem config MapProto.icmp = refl

leb-max : (a b now : ℕ) → leb (max a b) now ≡ leb a now && leb b now
leb-max a b now = ground arith

and_assoc : (a b c : Bool) → (a && b) && c ≡ a && (b && c)
and_assoc a b c = ground arith

latest_deadline-silent :
    (config : NatConfig) (now deadline : ℕ) (flows : List RemoteFlow)
    → not (ltb now (latest_deadline config deadline flows))
      ≡ leb deadline now && all_silent config now flows
unfolding latest_deadline all_silent
latest_deadline-silent config now deadline [] = ground arith
latest_deadline-silent config now deadline (flow ∷ flows) =
    let until = flow.last_seen + flow_timeout config flow.state in
    latest_deadline-silent config now (max deadline until) flows
    ∙ ap (λ b. b && all_silent config now flows) (leb-max deadline until now)
    ∙ and_assoc (leb deadline now) (leb until now) (all_silent config now flows)
    ∙ ap (λ t. leb deadline now && (leb (flow.last_seen + t) now && all_silent config now flows))
        (flow_timeout_lem config flow.state)

-- The deadline of a mapping that is not pinned has passed where it is idle.
deadline_of-idle :
    (config : NatConfig) (now : ℕ) (m : Mapping)
    → m.pinned ≡ false
    → not (ltb now (deadline_of config m)) ≡ idle config now (identity m)
unfolding deadline_of idle
deadline_of-idle config now m f =
    rw (f, deadline_of)
      (latest_deadline-silent config now (m.last_seen + initial_timeout config m.proto) m.remotes
        ∙ ap (λ t. leb (m.last_seen + t) now && all_silent config now m.remotes)
            (initial_timeout_lem config m.proto))

abbrev pub day : ℕ
day = 24 * 60 * 60 * 1_000_000_000

deadline_of-pinned :
    (config : NatConfig) (m : Mapping) → m.pinned ≡ true → deadline_of config m ≡ m.last_seen + day
unfolding deadline_of
deadline_of-pinned config m f = rw (f, deadline_of) refl

module _ {R T : Type 0} where
  abbrev pub expired : Napt R T → ℕ → ℕ → Bool
  expired n now id = expired_of n.config now (identity_at n id)

  -- The pinned forward, if the mapping is one, was last seen within the last day.
  abbrev pub IsRecent : Napt R T → ℕ → ℕ → Type 0
  IsRecent n now id =
      (i : Identity) → identity_at n id ≡ some i → i.pinned ≡ true → now < i.last_seen + day

  -- What a round does to a mapping found under its entry.
  deadline_of-expired :
      (n : Napt R T) (now : ℕ) (m : Mapping)
      → (m.pinned ≡ true → now < m.last_seen + day)
      → not (ltb now (deadline_of n.config m)) ≡ not m.pinned && idle n.config now (identity m)
  deadline_of-expired n now m recent = elim (Bool-cases m.pinned) [
    | inl f ↦ ground (arith, f, recent f, deadline_of-pinned n.config m f)
    | inr f ↦ deadline_of-idle n.config now m f ∙ ground (arith, f)
  ]

  -- A round of `sweep` for an entry of the heap forgets the mapping of the entry exactly where it is not
  -- pinned and it and each of its flows have been idle past the time that the configuration allows
  -- for its protocol and for the flow's state. It leaves every other mapping, and a pinned forward, as it
  -- was but for its place in the recency list. A pinned forward that the entry
  -- is for was last seen within the last day.
  pub sweep_entry-identity :
      (n : Napt R T) (now id : ℕ) (rest : List (ℕ × ℕ)) (k : ℕ)
      → IsRecent n now id
      → identity_at (sweep_entry n now id rest).1 k
        ≡ (if (id == k) && expired n now id then none else identity_at n k)
  unfolding sweep_entry expired_of
  sweep_entry-identity n now id rest k recent = elim (Option-cases (lookup id n.mappings)) [
    | inl e ↦ rw (e, sweep_entry, expired_of) (ground arith)
    | inr (m, e) ↦
        let test = deadline_of-expired n now m (recent (identity m) (ap identity? e)) in
        elim (Bool-cases (ltb now (deadline_of n.config m))) [
          | inl later ↦ rw (e, later, sweep_entry, expired_of) (ground (arith, test, later))
          | inr passed ↦
              rw (e, passed, sweep_entry, expired_of)
                (ground
                  (arith, test, passed, remove_mapping-identity (record n { expiry = rest }) id k))
        ]
  ]
