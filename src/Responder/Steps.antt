-- ===== src/Responder/Steps.antt =====
-- crates/warren-bolthole-core/src/responder.rs: the calls of a responder as steps, with the bytes that
-- each lets out, and the runs in which the gate is never opened.
pub mod Silent
use warren_sdk_rs.Prelude.{
  ℕ, ◌≡◌, refl, ap, ◌∙◌, sym, subst, inl, inr, Bool, true, false, not, Option, none, some, List, [],
  ◌∷◌, ◌++◌, Bool-cases, Option-cases, is_some, arith, map,
}
use warren_sdk_rs.Prelude.Map.{Eq, nat_eq, list_eq, lookup}
use warren_sdk_rs.Prelude.Ordered.{keys}
use warren_sdk_rs.Prelude.Outcomes.{Result, ok, err, Result-cases}
use warren_sdk_rs.Bytes.{Checked}
use warren_sdk_rs.Ip.{IpAddr, SocketAddr}
use warren_sdk_rs.Plan.{Addr}
use warren_sdk_rs.Conf.{PeerConf, ConfError}
use warren_sdk_rs.Responder.Types.{
  WireGuardError, TunnResult, Packet, Crates, GatewayConf, V6State, Inbound, uplink, reply,
  loopback, consumed, dropped, Encapsulated, sent, deferred, RouteError, ReloadReport, Responder,
}
use warren_sdk_rs.Responder.Sessions.{State}
use warren_sdk_rs.Responder.Datagram.{handle_datagram}
use warren_sdk_rs.Responder.Downlink.{flush, send_to_peer, encapsulate_to}
use warren_sdk_rs.Responder.Timers.{
  set_gate, set_ipv6, rebuild, reset_peer, rebuild_all, detect_clock_jump, heed, drive_peer,
  drive_all, reset_limiter, tick, heard_from, jumped, due, drive,
}
use warren_sdk_rs.Responder.Setup.{insert_peer_at, rebuild_lookups, rebuild_routes, checks}
use warren_sdk_rs.Responder.Reload.{
  draw_all, gone_of, remove_gone, replace_peer, is_same, apply_all, apply_conf, reload,
}
use warren_sdk_rs.Responder.Closed.{Quiet, handle_datagram-Held}

-- The bytes that leave the responder, toward a peer or the tunnel.
abbrev pub released : Inbound → List (List ℕ)
released (uplink peer packet) = packet ∷ []
released (reply bytes) = bytes ∷ []
released (loopback to packet) = packet ∷ []
released consumed = []
released (dropped reason) = []

abbrev pub queue : Option (List ℕ) → List (List ℕ)
queue none = []
queue (some bytes) = bytes ∷ []

abbrev pub addressed_bytes : Result Encapsulated RouteError → List (List ℕ)
addressed_bytes (ok (sent to bytes)) = bytes ∷ []
addressed_bytes (ok (deferred none)) = []
addressed_bytes (ok (deferred (some (to, bytes)))) = bytes ∷ []
addressed_bytes (err e) = []

abbrev pub All : (List ℕ → Type 0) → List (List ℕ) → Type 0
All P [] = Unit
All P (x ∷ xs) = P x × All P xs

pub All-append :
    (P : List ℕ → Type 0) (xs ys : List (List ℕ)) → All P xs → All P ys → All P (xs ++ ys)
All-append P [] ys h k = k
All-append P (x ∷ xs) ys h k = (h.0, All-append P xs ys h.1 k)

module _ {W T N4 N6 R : Type 0} (o : Crates W T N4 N6 R) ⦃e4 : Eq N4⦄ ⦃e6 : Eq N6⦄ where
  -- A call of a method that changes the state, other than one that opens the gate; a call that panics
  -- is no step.
  pub data Step (s : State o) : List (List ℕ) → State o → Type 0 where
    receives :
        (src : SocketAddr) (datagram : List ℕ) (now : ℕ) (inbound : Inbound) (s' : State o)
        → handle_datagram o src datagram now s ≡ (Checked.ok inbound, s')
        → Step s (released inbound) s'
    flushes : (id : ℕ) → Step s (queue (flush o id s).0) (flush o id s).1
    sends :
        (id : ℕ) (packet : List ℕ)
        → Step s (addressed_bytes (send_to_peer o id packet s).0) (send_to_peer o id packet s).1
    routes :
        (dst : Addr) (packet : List ℕ)
        → Step s
            (addressed_bytes (encapsulate_to o dst packet s).0)
            (encapsulate_to o dst packet s).1
    ticks : (now wall : ℕ) → Step s (map (λ d. d.1) (tick o now wall s).0) (tick o now wall s).1
    declares : (state : V6State) → Step s [] (set_ipv6 o state s)
    resets : (label : List ℕ) → Step s [] (reset_peer o label s).1
    reloads :
        (conf : GatewayConf N4 N6) (r : Result ReloadReport ConfError) (s' : State o)
        → reload o conf s ≡ some (r, s')
        → Step s [] s'
    closes : (generation : ℕ) → Step s [] (set_gate o false generation s)

  pub data Run (s : State o) : List (List ℕ) → State o → Type 0 where
    start : Run s [] s
    next :
        (before after : List (List ℕ)) (t u : State o)
        → Run s before t
        → Step t after u
        → Run s (before ++ after) u

  -- The bytes are a cookie that the limiter wrote on some datagram.
  unfoldable pub IsCookie : List ℕ → Type 0
  IsCookie bytes =
      (limiter : W) × (ip : IpAddr) × (datagram : List ℕ) × ((o.engine.verify_packet limiter ip
          datagram).0
        ≡ Result.err (TunnResult.write_to_network bytes))
