-- ===== src/Responder/Timers.antt =====
-- crates/warren-bolthole-core/src/responder.rs: the timers, the clock that jumps, and the sessions built
-- anew. An `Instant` and a `SystemTime` are numbers of nanoseconds.
use warren_sdk_rs.Prelude.{
  ℕ, ◌-◌, ◌*◌, Bool, true, false, ◌||◌, Option, none, some, List, [], ◌∷◌, ◌++◌, ltb, leb, is_some,
  if◌then◌else◌,
}
use warren_sdk_rs.Prelude.Map.{nat_eq, list_eq, lookup}
use warren_sdk_rs.Prelude.Ordered.{keys}
use warren_sdk_rs.Prelude.Outcomes.{Result, ok, err}
use warren_sdk_rs.Ip.{SocketAddr}
use warren_sdk_rs.Conf.{PeerConf}
use warren_sdk_rs.Responder.Counters as Counters
use warren_sdk_rs.Responder.Types.{
  WireGuardError, TunnResult, Crates, UnknownPeer, unknown, V6State, Peer,
}
use warren_sdk_rs.Responder.Sessions.{State, with_peer, count}

abbrev pub one_second : ℕ
one_second = 1_000_000_000

abbrev pub clock_jump : ℕ
clock_jump = 30 * one_second

-- `Peer::conf`.
unfoldable pub peer_conf : {T N4 N6 : Type 0} → Peer T N4 N6 → PeerConf N4 N6
peer_conf peer = record {
  label = peer.label;
  public = peer.public;
  psk = peer.psk;
  allowed = peer.allowed;
}

-- The keys of the peers with an endpoint.
unfoldable pub heard_from : {T N4 N6 : Type 0} → List (ℕ × Peer T N4 N6) → List ℕ
heard_from [] = []
heard_from ((id, peer) ∷ peers) =
    let rest = heard_from peers in if is_some peer.endpoint then id ∷ rest else rest

-- `wall.duration_since(last)` and its converse are 0 where the time is not later.
abbrev pub jumped : Option ℕ → ℕ → Bool
jumped none wall = false
jumped (some last) wall = ltb clock_jump (wall - last) || ltb clock_jump (last - wall)

module _ {W T N4 N6 R : Type 0} (o : Crates W T N4 N6 R) where
  unfoldable pub set_gate : Bool → ℕ → State o → State o
  set_gate is_open generation s = record s {
    gate = record { is_open = is_open; generation = generation };
  }

  unfoldable pub set_ipv6 : V6State → State o → State o
  set_ipv6 state s = record s { v6 = state }

  unfoldable pub build_tunn : PeerConf N4 N6 → ℕ → State o → T × State o
  build_tunn conf index s =
      let (tunn, limiter) = o.engine.tunn s.limiter s.key.secret conf.public conf.psk none index in
      (tunn, record s { limiter = limiter })

  unfoldable pub rebuild : ℕ → State o → State o
  unfolding peer_conf build_tunn
  rebuild id s = elim (lookup id s.peers) [
    | none ↦ s
    | some peer ↦
        let (tunn, s') = build_tunn (peer_conf peer) id s in
        with_peer o id (λ p. record p { tunn = tunn }) s'
  ]

  unfoldable pub reset_peer : List ℕ → State o → Result (Unit {0}) UnknownPeer × State o
  unfolding rebuild
  reset_peer label s = elim (lookup label s.by_label) [
    | none ↦ (err unknown, s)
    | some id ↦ (ok tt, with_peer o id (λ p. record p { last_drop = none }) (rebuild id s))
  ]

  unfoldable pub rebuild_all : List ℕ → State o → State o
  unfolding rebuild
  rebuild_all [] s = s
  rebuild_all (id ∷ ids) s = rebuild_all ids (count o Counters.clock_jump_reset (rebuild id s))

  unfoldable pub detect_clock_jump : ℕ → State o → State o
  unfolding rebuild_all heard_from
  detect_clock_jump wall s =
      let s' : State o = record s { last_wall = some wall } in
      if jumped s.last_wall wall then rebuild_all (heard_from s.peers) s' else s'

  -- What the timers of one peer gave: a datagram leaves only while the gate is open.
  unfoldable pub heed :
      Bool → ℕ → SocketAddr → TunnResult → State o → List (SocketAddr × List ℕ) × State o
  heed is_open id endpoint (TunnResult.write_to_network bytes) s =
      (if is_open then (endpoint, bytes) ∷ [] else [], s)
  heed is_open id endpoint (TunnResult.err WireGuardError.connection_expired) s =
      ([], with_peer o id (λ p. record p { endpoint = none }) s)
  heed is_open id endpoint _ s = ([], s)

  -- The timers of one peer with an endpoint.
  unfoldable pub drive : Bool → ℕ → SocketAddr → T → State o → List (SocketAddr × List ℕ) × State o
  unfolding heed
  drive is_open id endpoint session s =
      let (result, tunn, limiter) = o.engine.update_timers s.limiter session in
      heed is_open id endpoint result
        (with_peer o id (λ p. record p { tunn = tunn }) (record s { limiter = limiter }))

  unfoldable pub drive_peer : Bool → ℕ → State o → List (SocketAddr × List ℕ) × State o
  unfolding drive
  drive_peer is_open id s = elim (lookup id s.peers) [
    | none ↦ ([], s)
    | some peer ↦ elim peer.endpoint [
      | none ↦ ([], s)
      | some endpoint ↦ drive is_open id endpoint peer.tunn s
    ]
  ]

  unfoldable pub drive_all : Bool → List ℕ → State o → List (SocketAddr × List ℕ) × State o
  unfolding drive_peer
  drive_all is_open [] s = ([], s)
  drive_all is_open (id ∷ ids) s =
      let (first, s') = drive_peer is_open id s in
      let (rest, s'') = drive_all is_open ids s' in (first ++ rest, s'')

  -- The cookie limiter's count starts anew each second.
  abbrev pub due : Option ℕ → ℕ → Bool
  due none now = true
  due (some last) now = leb one_second (now - last)

  unfoldable pub reset_limiter : ℕ → State o → State o
  reset_limiter now s =
      if due s.last_reset now
      then record s { limiter = o.engine.reset_count s.limiter; last_reset = some now }
      else s

  unfoldable pub tick : ℕ → ℕ → State o → List (SocketAddr × List ℕ) × State o
  unfolding reset_limiter detect_clock_jump drive_all keys
  tick now wall s =
      let s' = detect_clock_jump wall (reset_limiter now s) in
      drive_all s'.gate.is_open (keys s'.peers) s'
