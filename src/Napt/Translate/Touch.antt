-- ===== src/Napt/Translate/Touch.antt =====
-- What a packet says of its flow: `touch_uplink` and `accept_downlink` of nat.rs.
use warren_sdk_rs.Prelude.{ℕ, ◌+◌, Bool, true, false, not, ◌&&◌, none, some, is_some, if◌then◌else◌}
use warren_sdk_rs.Prelude.Map.{nat_eq, lookup}
use warren_sdk_rs.Ip.{IpAddr}
use warren_sdk_rs.Napt.Types.{SocketAddr, NatDrop, Mapping, Napt}
use warren_sdk_rs.Napt.Flow.{remote_index, touch_flows}
use warren_sdk_rs.Napt.Recency.{update, touch_recency}
use warren_sdk_rs.Napt.Table.{Answer, heap_push}

module _ {R T : Type 0} where
  -- The mapping with the packet recorded, moved to the recent end; a flow that closed brings the
  -- deadline forward.
  unfoldable pub touch_mapping : Napt R T → ℕ → Mapping → IpAddr → ℕ → ℕ → ℕ → Bool → Napt R T
  unfolding touch_flows heap_push
  touch_mapping n id m remote port flags now uplink =
      let (remotes, closed) =
        touch_flows n.config.remotes_per_mapping m.remotes remote port m.proto flags now uplink in
      let n1 =
        touch_recency (update id (λ m. record m { remotes = remotes; last_seen = now }) n) id in
      if closed
      then record n1 { expiry = heap_push (now + n1.config.tcp_closing, id) n1.expiry }
      else n1

  unfoldable pub touch_uplink : Napt R T → ℕ → IpAddr → ℕ → ℕ → ℕ → Napt R T
  unfolding touch_mapping
  touch_uplink n id remote port flags now = elim (lookup id n.mappings) [
    | none ↦ n
    | some m ↦ touch_mapping n id m remote port flags now true
  ]

  unfoldable pub accept_downlink : Napt R T → ℕ → IpAddr → ℕ → ℕ → ℕ → Answer SocketAddr × Napt R T
  accept_downlink n id remote port flags now = elim (lookup id n.mappings) [
    | none ↦ (Answer.err NatDrop.no_mapping, n)
    | some m ↦
        if not (is_some (remote_index m.remotes remote port)) && not m.pinned
        then (Answer.err NatDrop.no_mapping, n)
        else (Answer.ok m.internal, touch_mapping n id m remote port flags now false)
  ]
