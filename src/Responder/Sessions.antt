-- ===== src/Responder/Sessions.antt =====
-- crates/warren-bolthole-core/src/responder.rs: what the methods share, the calls of the engine for one
-- peer among it. A method returns what it answers beside the state that it leaves.
use warren_sdk_rs.Prelude.{ℕ, ◌+◌, Option, none, some, List, ◌==◌, length, get_elem?, if◌then◌else◌}
use warren_sdk_rs.Prelude.Map.{nat_eq, list_eq, lookup}
use warren_sdk_rs.Prelude.Ordered.{update}
use warren_sdk_rs.Bytes.{Checked, ok}
use warren_sdk_rs.Ip.{SocketAddr}
use warren_sdk_rs.Napt.Types.{addr_eq}
use warren_sdk_rs.Plan.{v4, v6}
use warren_sdk_rs.Responder.Counters as Counters
use warren_sdk_rs.Responder.Counters.{
  DropReason, oversize, malformed, gate_closed, source_rate_limited, unknown_peer, unknown_index,
  auth, replay, spoofed_source, link_local_source, private_destination,
}
use warren_sdk_rs.Responder.Types.{
  WireGuardError, TunnResult, Crates, Inbound, dropped, Peer, Responder, Outcome, network, tunnel,
  failed,
}

-- `bytes.first().copied().unwrap_or(0)`.
abbrev pub first_byte : List ℕ → ℕ
first_byte bytes = elim (get_elem? bytes 0) [ none ↦ 0 | some b ↦ b ]

unfoldable pub summarize : TunnResult → Outcome
summarize TunnResult.done = Outcome.done
summarize (TunnResult.err WireGuardError.wrong_tai64n_timestamp) = failed replay
summarize (TunnResult.err _) = failed auth
summarize (TunnResult.write_to_network bytes) = network bytes (first_byte bytes)
summarize (TunnResult.write_to_tunnel_v4 bytes src) = tunnel bytes (v4 src)
summarize (TunnResult.write_to_tunnel_v6 bytes src) = tunnel bytes (v6 src)

module _ {W T N4 N6 R : Type 0} (o : Crates W T N4 N6 R) where
  abbrev pub State : Type 0
  State = Responder W T N4 N6 R

  -- `if let Some(peer) = self.peers.get_mut(&id)`.
  abbrev pub with_peer : ℕ → (Peer T N4 N6 → Peer T N4 N6) → State → State
  with_peer id f s = record s { peers = update id f s.peers }

  abbrev pub count : (Counters.ResponderSnapshot → Counters.ResponderSnapshot) → State → State
  count f s = record s { counters = f s.counters }

  unfoldable pub note : DropReason → State → State
  note reason s = count (Counters.dropped reason) s

  unfoldable pub note_for : ℕ → DropReason → State → State
  unfolding note
  note_for id reason s = note reason (
      with_peer id
        (λ peer. record peer {
          last_drop = some reason;
          stats = record peer.stats { drops = peer.stats.drops + 1 };
        })
        s)

  -- `Inbound::Dropped(self.note(reason))` and `Inbound::Dropped(self.note_for(id, reason))`.
  abbrev pub drop : DropReason → State → Checked Inbound × State
  drop reason s = (ok (dropped reason), note reason s)

  abbrev pub drop_for : ℕ → DropReason → State → Checked Inbound × State
  drop_for id reason s = (ok (dropped reason), note_for id reason s)

  unfoldable pub decapsulate : ℕ → SocketAddr → List ℕ → State → Outcome × State
  unfolding summarize
  decapsulate id src datagram s = elim (lookup id s.peers) [
    | none ↦ (failed unknown_index, s)
    | some peer ↦
        let (result, tunn, limiter) =
          o.engine.decapsulate s.limiter peer.tunn (some src.ip) datagram in
        (
          summarize result,
          with_peer id (λ p. record p { tunn = tunn }) (record s { limiter = limiter }),
        )
  ]

  -- A data packet counts as sent; anything else is queued by the engine or refused.
  unfoldable pub account : ℕ → ℕ → TunnResult → State → Option (List ℕ) × State
  account id size (TunnResult.write_to_network bytes) s =
      if first_byte bytes == 4
      then (
        some bytes,
        with_peer id
            (λ p. record p { stats = record p.stats { tx_bytes = p.stats.tx_bytes + size } }) s,
      )
      else (none, s)
  account id size _ s = (none, s)

  unfoldable pub encapsulate_into : ℕ → List ℕ → State → Option (List ℕ) × State
  unfolding account
  encapsulate_into id packet s = elim (lookup id s.peers) [
    | none ↦ (none, s)
    | some peer ↦
        let (result, tunn, limiter) = o.engine.encapsulate s.limiter peer.tunn packet in
        account id (length packet) result
          (with_peer id (λ p. record p { tunn = tunn }) (record s { limiter = limiter }))
  ]
