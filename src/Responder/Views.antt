-- ===== src/Responder/Views.antt =====
-- crates/warren-bolthole-core/src/responder.rs: what the responder tells of its peers.
use warren_sdk_rs.Prelude.{ℕ, ◌/◌, ◌%◌, ◌^◌, Option, none, some, List, [], ◌∷◌, is_some}
use warren_sdk_rs.Prelude.Map.{nat_eq, list_eq, lookup}
use warren_sdk_rs.Prelude.Ordered.{keys}
use warren_sdk_rs.Ip.{SocketAddr}
use warren_sdk_rs.Conf.{PeerConf}
use warren_sdk_rs.Responder.Types.{Crates, PeerStatus, Peer}
use warren_sdk_rs.Responder.Sessions.{State}
use warren_sdk_rs.Responder.Timers.{one_second, peer_conf}

abbrev seconds : Option ℕ → Option ℕ
seconds none = none
seconds (some since) = some (since / one_second)

unfoldable pub confs_of : {T N4 N6 : Type 0} → List (ℕ × Peer T N4 N6) → List (PeerConf N4 N6)
unfolding peer_conf
confs_of [] = []
confs_of ((id, peer) ∷ peers) = peer_conf peer ∷ confs_of peers

module _ {W T N4 N6 R : Type 0} (o : Crates W T N4 N6 R) where
  unfoldable pub peer_ids : State o → List ℕ
  unfolding keys
  peer_ids s = keys s.peers

  unfoldable pub peer_by_label : List ℕ → State o → Option ℕ
  peer_by_label label s = lookup label s.by_label

  unfoldable pub endpoint : ℕ → State o → Option SocketAddr
  endpoint id s = elim (lookup id s.peers) [ none ↦ none | some peer ↦ peer.endpoint ]

  unfoldable pub peer_confs : State o → List (PeerConf N4 N6)
  unfolding confs_of
  peer_confs s = confs_of s.peers

  -- The counts of the session are of the type usize, which the status holds in 64 bits.
  unfoldable pub status : Peer T N4 N6 → PeerStatus N4 N6
  status peer =
      let (handshake, tx, rx) = o.engine.stats peer.tunn in
      record {
        label = peer.label;
        has_session = is_some handshake;
        last_handshake_secs = seconds handshake;
        endpoint_seen = is_some peer.endpoint;
        stats = record peer.stats { rx_bytes = rx % 2 ^ 64; tx_bytes = tx % 2 ^ 64 };
        allowed_ips = peer.allowed;
        last_drop = peer.last_drop;
      }

  unfoldable pub statuses : List (ℕ × Peer T N4 N6) → List (PeerStatus N4 N6)
  unfolding status
  statuses [] = []
  statuses ((id, peer) ∷ peers) = status peer ∷ statuses peers

  unfoldable pub snapshot : State o → List (PeerStatus N4 N6)
  unfolding statuses
  snapshot s = statuses s.peers
