-- ===== src/Responder/Setup.antt =====
-- crates/warren-bolthole-core/src/responder.rs: a responder built from a configuration.
use warren_sdk_rs.Prelude.{ℕ, false, Option, none, some, List, [], ◌∷◌}
use warren_sdk_rs.Prelude.Map.{nat_eq, list_eq, insert}
use warren_sdk_rs.Prelude.Ordered.{put}
use warren_sdk_rs.Prelude.Outcomes.{Result, ok, err}
use warren_sdk_rs.Plan.{IpNetwork}
use warren_sdk_rs.Plan.Peers.{PeerPlan}
use warren_sdk_rs.Conf.{PeerConf, ConfError, too_many_peers, check_peers, check_against, ◌>>◌}
use warren_sdk_rs.Index.{IndexGen, next}
use warren_sdk_rs.RateLimit.TokenBucket as TokenBucket
use warren_sdk_rs.RateLimit.HandshakeBuckets.{with_limits}
use warren_sdk_rs.Responder.Counters.{zeros}
use warren_sdk_rs.Responder.Types.{
  available, Crates, GatewayConf, ResponderOptions, PeerStats, Peer,
}
use warren_sdk_rs.Responder.Sessions.{State}
use warren_sdk_rs.Responder.Timers.{build_tunn}

-- The next index, or none when all are spent. `Index.Distinct` shows that a generator never lacks
-- rounds, the outer `none` here.
unfoldable pub draw : IndexGen → Option ℕ × IndexGen
draw g = elim (next g) [ none ↦ (none, g) | some drawn ↦ drawn ]

abbrev pub no_stats : PeerStats
no_stats = record { rx_bytes = 0; tx_bytes = 0; handshakes = 0; deferred = 0; drops = 0 }

module _ {W T N4 N6 R : Type 0} (o : Crates W T N4 N6 R) where
  unfoldable pub fresh_peer : PeerConf N4 N6 → T → Peer T N4 N6
  fresh_peer conf tunn = record {
    label = conf.label;
    public = conf.public;
    psk = conf.psk;
    allowed = conf.allowed;
    tunn = tunn;
    endpoint = none;
    stats = no_stats;
    last_drop = none;
  }

  unfoldable pub insert_peer_at : PeerConf N4 N6 → ℕ → State o → State o
  unfolding build_tunn fresh_peer
  insert_peer_at conf index s =
      let (tunn, s') = build_tunn o conf index s in
      record s' {
        by_pubkey = insert conf.public index s'.by_pubkey;
        by_label = insert conf.label index s'.by_label;
        peers = put index (fresh_peer conf tunn) s'.peers;
      }

  unfoldable pub insert_peer : PeerConf N4 N6 → State o → Result (State o) ConfError
  unfolding draw insert_peer_at
  insert_peer conf s =
      let (drawn, indexes) = draw s.indexes in
      elim drawn [
        | none ↦ err too_many_peers
        | some index ↦ ok (insert_peer_at conf index (record s { indexes = indexes }))
      ]

  unfoldable pub insert_all : List (PeerConf N4 N6) → State o → Result (State o) ConfError
  unfolding insert_peer
  insert_all [] s = ok s
  insert_all (conf ∷ confs) s = elim (insert_peer conf s) [
    | err e ↦ err e
    | ok s' ↦ insert_all confs s'
  ]

  -- The two maps of `rebuild_lookups`, and the table of `rebuild_routes`.
  unfoldable pub pubkeys_of : List (ℕ × Peer T N4 N6) → List (List ℕ × ℕ) → List (List ℕ × ℕ)
  pubkeys_of [] m = m
  pubkeys_of ((id, peer) ∷ peers) m = pubkeys_of peers (insert peer.public id m)

  unfoldable pub labels_of : List (ℕ × Peer T N4 N6) → List (List ℕ × ℕ) → List (List ℕ × ℕ)
  labels_of [] m = m
  labels_of ((id, peer) ∷ peers) m = labels_of peers (insert peer.label id m)

  unfoldable pub routes_of_peer : ℕ → List (IpNetwork N4 N6) → R → R
  routes_of_peer id [] routes = routes
  routes_of_peer id (network ∷ networks) routes =
      routes_of_peer id networks (o.routing.insert routes network id)

  unfoldable pub routes_of : List (ℕ × Peer T N4 N6) → R → R
  unfolding routes_of_peer
  routes_of [] routes = routes
  routes_of ((id, peer) ∷ peers) routes = routes_of peers (routes_of_peer id peer.allowed routes)

  unfoldable pub rebuild_lookups : State o → State o
  unfolding pubkeys_of labels_of
  rebuild_lookups s = record s {
    by_pubkey = pubkeys_of s.peers [];
    by_label = labels_of s.peers [];
  }

  unfoldable pub rebuild_routes : State o → State o
  unfolding routes_of
  rebuild_routes s = record s { routes = routes_of s.peers o.routing.empty }

  -- The checks that a configuration passes before anything else.
  unfoldable pub checks : PeerPlan N4 N6 → List (PeerConf N4 N6) → Result (Unit {0}) ConfError
  checks plan peers = check_peers o.ip4 o.ip6 peers >> check_against o.ip4 o.ip6 plan peers

  -- `with_indexes`, over the state `limiter` of the engine.
  unfoldable pub with_indexes :
      GatewayConf N4 N6
      → PeerPlan N4 N6
      → ResponderOptions
      → IndexGen
      → W
      → Result (State o) ConfError
  unfolding checks insert_all rebuild_routes
  with_indexes conf plan options indexes limiter = elim (checks plan conf.peers) [
    | err e ↦ err e
    | ok _ ↦
        let empty : State o = record {
          key = conf.key;
          limiter = o.engine.rate_limiter limiter conf.key.public options.handshake_rate;
          peers = [];
          by_pubkey = [];
          by_label = [];
          routes = o.routing.empty;
          per_source =
              with_limits options.per_source_rate options.per_source_burst options.sources_tracked;
          answers = TokenBucket.new options.answer_rate options.answer_burst;
          indexes = indexes;
          plan = plan;
          isolation = options.peer_isolation;
          gate = record { is_open = false; generation = 0 };
          v6 = available;
          counters = zeros;
          last_reset = none;
          last_wall = none;
        } in
        elim (insert_all conf.peers empty) [ err e ↦ err e | ok s ↦ ok (rebuild_routes s) ]
  ]
