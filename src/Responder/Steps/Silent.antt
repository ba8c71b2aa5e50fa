-- ===== src/Responder/Steps/Silent.antt =====
-- crates/warren-bolthole-core/src/responder.rs: nothing but cookies leaves while the gate is closed.
use warren_sdk_rs.Prelude.{
  ℕ, ◌≡◌, refl, sym, subst, inl, inr, false, Option, none, some, List, [], ◌∷◌, Bool-cases,
  Option-cases, List-cases, map,
}
use warren_sdk_rs.Prelude.Map.{Eq, nat_eq, list_eq, lookup}
use warren_sdk_rs.Prelude.Ordered.{keys}
use warren_sdk_rs.Prelude.Outcomes.{Result, Result-cases}
use warren_sdk_rs.Bytes.{Checked}
use warren_sdk_rs.Ip.{IpAddr, SocketAddr}
use warren_sdk_rs.Plan.{Addr}
use warren_sdk_rs.Conf.{PeerConf, ConfError}
use warren_sdk_rs.Responder.Types.{
  WireGuardError, TunnResult, Crates, GatewayConf, Inbound, ReloadReport,
}
use warren_sdk_rs.Responder.Sessions.{State}
use warren_sdk_rs.Responder.Downlink.{flush, send_to_peer, encapsulate_to}
use warren_sdk_rs.Responder.Timers.{
  set_gate, set_ipv6, rebuild, reset_peer, rebuild_all, detect_clock_jump, heed, drive_peer,
  drive_all, reset_limiter, tick, heard_from, jumped, due, drive, build_tunn,
}
use warren_sdk_rs.Responder.Setup.{insert_peer_at, rebuild_lookups, rebuild_routes, checks}
use warren_sdk_rs.Responder.Reload.{
  draw_all, gone_of, remove_gone, replace_peer, is_same, apply_all, apply_conf, reload, no_changes,
}
use warren_sdk_rs.Responder.Closed.{Quiet, nothing, refused, cookie, Held, handle_datagram-Held}
use warren_sdk_rs.Responder.Steps.{
  released, queue, addressed_bytes, All, All-append, Step, receives, flushes, sends, routes, ticks,
  declares, resets, reloads, closes, Run, start, next, IsCookie,
}

module _ {W T N4 N6 R : Type 0} (o : Crates W T N4 N6 R) where
  abbrev Shut : State o → Type 0
  Shut s = s.gate.is_open ≡ false

  rebuild-Shut : (id : ℕ) (s : State o) → Shut s → Shut (rebuild o id s)
  unfolding rebuild build_tunn
  rebuild-Shut id s h = elim (Option-cases (lookup id s.peers)) [
    | inl e ↦ rw (rebuild, e) h
    | inr (peer, e) ↦ rw (rebuild, e) h
  ]

  reset_peer-Shut : (label : List ℕ) (s : State o) → Shut s → Shut (reset_peer o label s).1
  unfolding reset_peer
  reset_peer-Shut label s h = elim (Option-cases (lookup label s.by_label)) [
    | inl e ↦ rw (reset_peer, e) h
    | inr (id, e) ↦ rw (reset_peer, e) (rebuild-Shut id s h)
  ]

  rebuild_all-Shut : (ids : List ℕ) (s : State o) → Shut s → Shut (rebuild_all o ids s)
  unfolding rebuild_all
  rebuild_all-Shut [] s h = h
  rebuild_all-Shut (id ∷ ids) s h = rebuild_all-Shut ids _ (rebuild-Shut id s h)

  detect_clock_jump-Shut : (wall : ℕ) (s : State o) → Shut s → Shut (detect_clock_jump o wall s)
  unfolding detect_clock_jump
  detect_clock_jump-Shut wall s h = elim (Bool-cases (jumped s.last_wall wall)) [
    | inl e ↦ rw (detect_clock_jump, e) (rebuild_all-Shut (heard_from s.peers) _ h)
    | inr e ↦ rw (detect_clock_jump, e) h
  ]

  reset_limiter-Shut : (now : ℕ) (s : State o) → Shut s → Shut (reset_limiter o now s)
  unfolding reset_limiter
  reset_limiter-Shut now s h = elim (Bool-cases (due o s.last_reset now)) [
    | inl e ↦ rw (reset_limiter, e) h
    | inr e ↦ rw (reset_limiter, e) h
  ]

  -- What the timers do while the gate is closed: nothing is sent, and it stays closed.
  abbrev Idle : List (SocketAddr × List ℕ) × State o → Type 0
  Idle (out, s) = (out ≡ []) × Shut s

  heed-Idle :
      (id : ℕ) (endpoint : SocketAddr) (result : TunnResult) (s : State o)
      → Shut s
      → Idle (heed o false id endpoint result s)
  unfolding heed
  heed-Idle id endpoint TunnResult.done s h = (refl, h)
  heed-Idle id endpoint (TunnResult.err WireGuardError.connection_expired) s h = (refl, h)
  heed-Idle id endpoint (TunnResult.err WireGuardError.wrong_tai64n_timestamp) s h = (refl, h)
  heed-Idle id endpoint (TunnResult.err WireGuardError.other_error) s h = (refl, h)
  heed-Idle id endpoint (TunnResult.write_to_network bytes) s h = (refl, h)
  heed-Idle id endpoint (TunnResult.write_to_tunnel_v4 bytes a) s h = (refl, h)
  heed-Idle id endpoint (TunnResult.write_to_tunnel_v6 bytes a) s h = (refl, h)

  drive_peer-Idle : (id : ℕ) (s : State o) → Shut s → Idle (drive_peer o false id s)
  unfolding drive_peer drive
  drive_peer-Idle id s h = elim (Option-cases (lookup id s.peers)) [
    | inl e ↦ rw (drive_peer, e) (refl, h)
    | inr (peer, e) ↦ elim (Option-cases peer.endpoint) [
      | inl f ↦ rw (drive_peer, e, f) (refl, h)
      | inr (endpoint, f) ↦ rw (drive_peer, e, f) (heed-Idle id endpoint _ _ h)
    ]
  ]

  drive_all-Idle : (ids : List ℕ) (s : State o) → Shut s → Idle (drive_all o false ids s)
  unfolding drive_all
  drive_all-Idle [] s h = (refl, h)
  drive_all-Idle (id ∷ ids) s h =
      let first = drive_peer-Idle id s h in
      let rest = drive_all-Idle ids (drive_peer o false id s).1 first.1 in
      (rw (drive_all, first.0, rest.0) refl, rest.1)

  tick-Idle : (now wall : ℕ) (s : State o) → Shut s → Idle (tick o now wall s)
  unfolding tick
  tick-Idle now wall s h =
      let s' = detect_clock_jump o wall (reset_limiter o now s) in
      let k : Shut s' =
        detect_clock_jump-Shut wall (reset_limiter o now s) (reset_limiter-Shut now s h) in
      subst (λ b. Idle (drive_all o b (keys s'.peers) s')) (sym k)
        (drive_all-Idle (keys s'.peers) s' k)

  flush-silent :
      (id : ℕ) (s : State o) → Shut s → (queue (flush o id s).0 ≡ []) × Shut (flush o id s).1
  unfolding flush
  flush-silent id s h = rw (flush, h) (refl, refl)

  send-silent :
      (id : ℕ) (packet : List ℕ) (s : State o)
      → Shut s
      → (addressed_bytes (send_to_peer o id packet s).0 ≡ []) × Shut (send_to_peer o id packet s).1
  unfolding send_to_peer
  send-silent id packet s h = rw (send_to_peer, h) (refl, refl)

  route-silent :
      (dst : Addr) (packet : List ℕ) (s : State o)
      → Shut s
      → (addressed_bytes (encapsulate_to o dst packet s).0 ≡ [])
        × Shut (encapsulate_to o dst packet s).1
  unfolding encapsulate_to
  route-silent dst packet s h = elim (Option-cases (o.routing.longest_match s.routes dst)) [
    | inl e ↦ rw (encapsulate_to, e) (refl, h)
    | inr (route, e) ↦ rw (encapsulate_to, e) (send-silent route.1 packet s h)
  ]

  remove_gone-Shut :
      (gone : List (ℕ × List ℕ)) (s : State o) (report : ReloadReport)
      → Shut s
      → Shut (remove_gone o gone s report).0
  unfolding remove_gone
  remove_gone-Shut [] s report h = h
  remove_gone-Shut ((id, label) ∷ gone) s report h = remove_gone-Shut gone _ _ h

  module _ ⦃e4 : Eq N4⦄ ⦃e6 : Eq N6⦄ where
    abbrev Applied : Option (State o × ReloadReport) → Type 0
    Applied none = Unit
    Applied (some (s, report)) = Shut s

    abbrev Reloaded : Option (Result ReloadReport ConfError × State o) → Type 0
    Reloaded none = Unit
    Reloaded (some (r, s)) = Shut s

    apply_all-Applied :
        (confs : List (PeerConf N4 N6)) (fresh : List ℕ) (s : State o) (report : ReloadReport)
        → Shut s
        → Applied (apply_all o confs fresh s report)
    unfolding apply_all replace_peer insert_peer_at build_tunn
    apply_all-Applied [] fresh s report h = h
    apply_all-Applied (conf ∷ confs) fresh s report h =
        elim (Option-cases (lookup conf.label s.by_label)) [
          | inl e ↦ elim (List-cases fresh) [
            | inl f ↦ rw (apply_all, e, f) tt
            | inr (index, indexes, f) ↦
                rw (apply_all, e, f)
                  (apply_all-Applied confs indexes (insert_peer_at o conf index s) _ h)
          ]
          | inr (id, e) ↦ elim (Bool-cases (is_same o id conf s)) [
            | inl f ↦ rw (apply_all, e, f) (apply_all-Applied confs fresh s _ h)
            | inr f ↦
                rw (apply_all, e, f) (apply_all-Applied confs fresh (replace_peer o conf id s) _ h)
          ]
        ]

    reload-Reloaded : (conf : GatewayConf N4 N6) (s : State o) → Shut s → Reloaded (reload o conf s)
    unfolding reload apply_conf rebuild_routes rebuild_lookups
    reload-Reloaded conf s h = elim (Result-cases (checks o s.plan conf.peers)) [
      | inr (e, f) ↦ rw (reload, f) h
      | inl (u, f) ↦ elim (Option-cases (draw_all s.by_label conf.peers s.indexes)) [
        | inl g ↦ rw (reload, f, g) h
        | inr ((fresh, indexes), g) ↦
            let s1 : State o = record s { indexes = indexes } in
            let (s2, report) = remove_gone o (gone_of conf.peers s.peers) s1 no_changes in
            let kept : Shut s2 = remove_gone-Shut (gone_of conf.peers s.peers) s1 no_changes h in
            let applied : Applied (apply_conf o conf.peers fresh s1) =
              apply_all-Applied conf.peers fresh s2 report kept in
            elim (Option-cases (apply_conf o conf.peers fresh s1)) [
              | inl k ↦ rw (reload, f, g, k) tt
              | inr ((s3, report'), k) ↦ rw (reload, f, g, k) (subst Applied k applied)
            ]
      ]
    ]

    -- A datagram that is answered gives a cookie, or nothing.
    Quiet-cookies :
        (limiter : W) (ip : IpAddr) (datagram : List ℕ) (inbound : Inbound)
        → Quiet (o.engine.verify_packet limiter ip datagram).0 (Checked.ok inbound)
        → All (IsCookie o) (released inbound)
    unfolding IsCookie
    Quiet-cookies limiter ip datagram _ nothing = tt
    Quiet-cookies limiter ip datagram _ (refused reason) = tt
    Quiet-cookies limiter ip datagram _ (cookie bytes e) = ((limiter, ip, datagram, e), tt)

    -- A step from a closed gate lets out nothing but cookies, and leaves the gate closed.
    Step-silent :
        {s t : State o} {sent : List (List ℕ)}
        → Step o s sent t
        → Shut s
        → All (IsCookie o) sent × Shut t
    unfolding set_ipv6 set_gate
    Step-silent {s = s} (receives src datagram now inbound s' e) h =
        let verified = (o.engine.verify_packet s.limiter src.ip datagram).0 in
        let held = handle_datagram-Held o src datagram now s h in
        let moved : Held o verified (Checked.ok inbound, s') = subst (Held o verified) e held in
        (Quiet-cookies s.limiter src.ip datagram inbound moved.0, moved.1)
    Step-silent {s = s} (flushes id) h =
        let k = flush-silent id s h in (subst (All (IsCookie o)) (sym k.0) tt, k.1)
    Step-silent {s = s} (sends id packet) h =
        let k = send-silent id packet s h in (subst (All (IsCookie o)) (sym k.0) tt, k.1)
    Step-silent {s = s} (routes dst packet) h =
        let k = route-silent dst packet s h in (subst (All (IsCookie o)) (sym k.0) tt, k.1)
    Step-silent {s = s} (ticks now wall) h =
        let k = tick-Idle now wall s h in
        (
          subst (λ out. All (IsCookie o) (map (λ (d : SocketAddr × List ℕ). d.1) out)) (sym k.0) tt,
          k.1,
        )
    Step-silent (declares state) h = (tt, h)
    Step-silent {s = s} (resets label) h = (tt, reset_peer-Shut label s h)
    Step-silent {s = s} (reloads conf r s' e) h = (tt, subst Reloaded e (reload-Reloaded conf s h))
    Step-silent (closes generation) h = (tt, refl)

    -- From a closed gate, whatever calls are made but one that opens it: all that leaves the responder
    -- is cookies that the limiter wrote, and the gate is still closed.
    pub Run-silent :
        {s t : State o} {sent : List (List ℕ)}
        → Run o s sent t
        → Shut s
        → All (IsCookie o) sent × Shut t
    Run-silent start h = (tt, h)
    Run-silent (next before after t u run step) h =
        let (cookies, k) = Run-silent run h in
        let (more, l) = Step-silent step k in (All-append (IsCookie o) before after cookies more, l)
