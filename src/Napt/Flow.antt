-- ===== src/Napt/Flow.antt =====
-- The flows of one mapping: `advance`, `remote_index`, `oldest_remote` and `deadline_of` of nat.rs.
pub mod Close
use warren_sdk_rs.Prelude.{
  ℕ, suc, ◌+◌, ◌/◌, ◌%◌, ◌*◌, Bool, true, false, not, ◌&&◌, Option, none, some, List, [], ◌∷◌, ltb,
  leb, ◌==◌, max, if◌then◌else◌, push, set, swap_remove, length, get_elem?,
}
use warren_sdk_rs.Prelude.Map.{◌=?◌}
use warren_sdk_rs.Ip.{IpAddr}
use warren_sdk_rs.Napt.Types.{MapProto, addr_eq, FlowState, RemoteFlow, Mapping, NatConfig}

-- The flags of a TCP header: FIN 1, SYN 2, RST 4, ACK 16.
abbrev pub flag : ℕ → ℕ → Bool
flag flags bit = not (flags / bit % 2 == 0)

abbrev pub is_closed : FlowState → Bool
is_closed FlowState.tcp_closed = true
is_closed _ = false

-- The flow as a packet leaves it, in the order of the tests in the source.
unfoldable pub advance_tcp : RemoteFlow → ℕ → Bool → RemoteFlow
advance_tcp flow flags uplink =
    let flow =
      if flag flags 2 && (flag flags 16 && not uplink)
      then record flow { state = FlowState.tcp_established }
      else if flag flags 2 && (not (flag flags 16) && uplink)
      then record flow { state = FlowState.tcp_syn; fin_up = false; fin_down = false }
      else flow in
    let flow =
      if flag flags 1
      then (if uplink then record flow { fin_up = true } else record flow { fin_down = true })
      else flow in
    if flow.fin_up && flow.fin_down then record flow { state = FlowState.tcp_closed } else flow

-- The flow, and true where it just closed.
unfoldable pub advance : RemoteFlow → MapProto → ℕ → Bool → RemoteFlow × Bool
unfolding advance_tcp
advance flow proto flags uplink =
    let was_open = not (is_closed flow.state) in
    elim proto [
      | MapProto.udp ↦
          let flow = if not uplink then record flow { state = FlowState.udp_answered } else flow in
          (flow, was_open && is_closed flow.state)
      | MapProto.icmp ↦
          let flow = record flow { state = FlowState.icmp } in
          (flow, was_open && is_closed flow.state)
      | MapProto.tcp ↦
          if flag flags 4
          then (record flow { state = FlowState.tcp_closed }, was_open)
          else (let flow = advance_tcp flow flags uplink in
              (flow, was_open && is_closed flow.state))
    ]

abbrev pub first_state : MapProto → FlowState
first_state MapProto.tcp = FlowState.tcp_syn
first_state MapProto.udp = FlowState.udp_one_way
first_state MapProto.icmp = FlowState.icmp

-- The flow of a remote that the mapping has not met.
abbrev pub new_flow : IpAddr → ℕ → MapProto → ℕ → RemoteFlow
new_flow remote port proto now = record {
  addr = remote;
  port = port;
  state = first_state proto;
  fin_up = false;
  fin_down = false;
  last_seen = now;
}

abbrev pub is_remote : IpAddr → ℕ → RemoteFlow → Bool
is_remote addr port r = (r.addr =? addr) && (r.port == port)

-- `iter().position(...)`.
unfoldable pub remote_index : List RemoteFlow → IpAddr → ℕ → Option ℕ
remote_index [] addr port = none
remote_index (r ∷ rs) addr port =
    let later = remote_index rs addr port in
    if is_remote addr port r then some 0 else (elim later [ none ↦ none | some i ↦ some (suc i) ])

-- The place and the time of the first of the least recent, from the place `at` on.
unfoldable pub oldest_from : ℕ → List RemoteFlow → Option (ℕ × ℕ)
oldest_from at [] = none
oldest_from at (r ∷ rs) = elim (oldest_from (suc at) rs) [
  | none ↦ some (at, r.last_seen)
  | some (i, t) ↦ if ltb t r.last_seen then some (i, t) else some (at, r.last_seen)
]

unfoldable pub oldest_remote : List RemoteFlow → Option ℕ
unfolding oldest_from
oldest_remote remotes = elim (oldest_from 0 remotes) [ none ↦ none | some (i, t) ↦ some i ]

-- The least recent remote is forgotten where the list is at its cap.
unfoldable pub forget_oldest : ℕ → List RemoteFlow → List RemoteFlow
unfolding oldest_remote
forget_oldest cap remotes =
    if leb cap (length remotes)
    then (elim (oldest_remote remotes) [ none ↦ remotes | some at ↦ swap_remove remotes at ])
    else remotes

-- The flows after a packet of the remote, and true where its flow just closed.
unfoldable pub touch_flows :
    ℕ → List RemoteFlow → IpAddr → ℕ → MapProto → ℕ → ℕ → Bool → List RemoteFlow × Bool
unfolding remote_index forget_oldest advance
touch_flows cap remotes remote port proto flags now uplink =
    elim (remote_index remotes remote port) [
      | some at ↦ elim (get_elem? remotes at) [
        | none ↦ (remotes, false)
        | some flow ↦
            let (flow', closed) = advance (record flow { last_seen = now }) proto flags uplink in
            (set remotes at flow', closed)
      ]
      | none ↦
          let (flow', closed) = advance (new_flow remote port proto now) proto flags uplink in
          (push (forget_oldest cap remotes) flow', closed)
    ]

abbrev pub initial_timeout : NatConfig → MapProto → ℕ
initial_timeout config MapProto.tcp = config.tcp_syn
initial_timeout config MapProto.udp = config.udp_initial
initial_timeout config MapProto.icmp = config.icmp

abbrev pub flow_timeout : NatConfig → FlowState → ℕ
flow_timeout config FlowState.udp_one_way = config.udp_initial
flow_timeout config FlowState.udp_answered = config.udp_established
flow_timeout config FlowState.tcp_syn = config.tcp_syn
flow_timeout config FlowState.tcp_established = config.tcp_established
flow_timeout config FlowState.tcp_closed = config.tcp_closing
flow_timeout config FlowState.icmp = config.icmp

unfoldable pub latest_deadline : NatConfig → ℕ → List RemoteFlow → ℕ
latest_deadline config deadline [] = deadline
latest_deadline config deadline (flow ∷ remotes) =
    latest_deadline config (max deadline (flow.last_seen + flow_timeout config flow.state)) remotes

unfoldable pub deadline_of : NatConfig → Mapping → ℕ
unfolding latest_deadline
deadline_of config m =
    if m.pinned
    then m.last_seen + 86_400 * 1_000_000_000
    else latest_deadline config (m.last_seen + initial_timeout config m.proto) m.remotes
