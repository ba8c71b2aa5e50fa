-- ===== src/Responder/Reload.antt =====
-- crates/warren-bolthole-core/src/responder.rs: the configuration that replaces another.
pub mod Draws
pub mod Current
pub mod Revoked
pub mod Held
pub mod Kept
use warren_sdk_rs.Prelude.{
  ℕ, ◌+◌, Bool, true, false, ◌&&◌, Option, none, some, List, [], ◌∷◌, any, push, if◌then◌else◌,
}
use warren_sdk_rs.Prelude.Map.{Eq, ◌=?◌, nat_eq, list_eq, list_beq, lookup, remove}
use warren_sdk_rs.Prelude.Outcomes.{Result, ok, err}
use warren_sdk_rs.Plan.{IpNetwork, net4, net6}
use warren_sdk_rs.Conf.{PeerConf, ConfError, too_many_peers}
use warren_sdk_rs.Index.{IndexGen}
use warren_sdk_rs.Responder.Types.{Crates, GatewayConf, ReloadReport, Peer}
use warren_sdk_rs.Responder.Sessions.{State, with_peer}
use warren_sdk_rs.Responder.Timers.{build_tunn}
use warren_sdk_rs.Responder.Setup.{draw, insert_peer_at, rebuild_lookups, rebuild_routes, checks}

unfoldable pub key_beq : Option (List ℕ) → Option (List ℕ) → Bool
key_beq none none = true
key_beq (some a) (some b) = list_beq a b
key_beq _ _ = false

module _ {N4 N6 : Type 0} ⦃e4 : Eq N4⦄ ⦃e6 : Eq N6⦄ where
  unfoldable pub network_beq : IpNetwork N4 N6 → IpNetwork N4 N6 → Bool
  network_beq (net4 a) (net4 b) = a =? b
  network_beq (net6 a) (net6 b) = a =? b
  network_beq _ _ = false

  unfoldable pub networks_beq : List (IpNetwork N4 N6) → List (IpNetwork N4 N6) → Bool
  unfolding network_beq
  networks_beq [] [] = true
  networks_beq (x ∷ xs) (y ∷ ys) = network_beq x y && networks_beq xs ys
  networks_beq _ _ = false

  unfoldable pub same_material : {T : Type 0} → Peer T N4 N6 → PeerConf N4 N6 → Bool
  unfolding key_beq networks_beq
  same_material peer conf =
      list_beq peer.public conf.public
      && (key_beq peer.psk conf.psk && networks_beq peer.allowed conf.allowed)

-- `wanted.contains_key(&label)`.
unfoldable pub is_wanted : {N4 N6 : Type 0} → List (PeerConf N4 N6) → List ℕ → Bool
is_wanted confs label = any (λ conf. list_beq conf.label label) confs

-- One index for each label that no peer has; none where the generator ends before.
unfoldable pub draw_all :
    {N4 N6 : Type 0}
    → List (List ℕ × ℕ)
    → List (PeerConf N4 N6)
    → IndexGen
    → Option (List ℕ × IndexGen)
unfolding draw
draw_all by_label [] g = some ([], g)
draw_all by_label (conf ∷ confs) g = elim (lookup conf.label by_label) [
  | some id ↦ draw_all by_label confs g
  | none ↦
      let (drawn, g') = draw g in
      elim drawn [
        | none ↦ none
        | some index ↦ elim (draw_all by_label confs g') [
          | none ↦ none
          | some (rest, g'') ↦ some (index ∷ rest, g'')
        ]
      ]
]

-- The peers whose label is not wanted.
unfoldable pub gone_of :
    {T N4 N6 : Type 0} → List (PeerConf N4 N6) → List (ℕ × Peer T N4 N6) → List (ℕ × List ℕ)
unfolding is_wanted
gone_of confs [] = []
gone_of confs ((id, peer) ∷ peers) =
    let rest = gone_of confs peers in
    if is_wanted confs peer.label then rest else (id, peer.label) ∷ rest

abbrev pub no_changes : ReloadReport
no_changes = record { added = []; removed = []; rebuilt = []; unchanged = 0 }

module _ {W T N4 N6 R : Type 0} (o : Crates W T N4 N6 R) where
  unfoldable pub remove_gone : List (ℕ × List ℕ) → State o → ReloadReport → State o × ReloadReport
  remove_gone [] s report = (s, report)
  remove_gone ((id, label) ∷ gone) s report =
      remove_gone gone (record s { peers = remove id s.peers; by_label = remove label s.by_label })
        (record report { removed = push report.removed label })

  -- A live peer takes new material, and loses its session and its endpoint.
  unfoldable pub replace_peer : PeerConf N4 N6 → ℕ → State o → State o
  unfolding build_tunn
  replace_peer conf id s =
      let (tunn, s') = build_tunn o conf id s in
      with_peer o id
        (λ p. record p {
          public = conf.public;
          psk = conf.psk;
          allowed = conf.allowed;
          tunn = tunn;
          endpoint = none;
          last_drop = none;
        })
        s'

  module _ ⦃e4 : Eq N4⦄ ⦃e6 : Eq N6⦄ where
    -- `live.same_material(peer)` of the peer with the index, if there is one.
    unfoldable pub is_same : ℕ → PeerConf N4 N6 → State o → Bool
    unfolding same_material
    is_same id conf s = elim (lookup id s.peers) [
      | none ↦ false
      | some live ↦ same_material live conf
    ]

    -- The loop over the peers wanted, with the indexes not used yet; none where `expect` panics.
    unfoldable pub apply_all :
        List (PeerConf N4 N6) → List ℕ → State o → ReloadReport → Option (State o × ReloadReport)
    unfolding is_same replace_peer insert_peer_at
    apply_all [] fresh s report = some (s, report)
    apply_all (conf ∷ confs) fresh s report = elim (lookup conf.label s.by_label) [
      | some id ↦ elim (is_same id conf s) [
        | true ↦ apply_all confs fresh s (record report { unchanged = report.unchanged + 1 })
        | false ↦
            apply_all confs fresh (replace_peer conf id s)
              (record report { rebuilt = push report.rebuilt conf.label })
      ]
      | none ↦ elim fresh [
        | [] ↦ none
        | index ∷ indexes ↦
            apply_all confs indexes (insert_peer_at o conf index s)
              (record report { added = push report.added conf.label })
      ]
    ]

    -- The changes, once all checks have passed and the indexes are drawn.
    unfoldable pub apply_conf :
        List (PeerConf N4 N6) → List ℕ → State o → Option (State o × ReloadReport)
    unfolding gone_of remove_gone apply_all
    apply_conf confs fresh s =
        let (s', report) = remove_gone (gone_of confs s.peers) s no_changes in
        apply_all confs fresh s' report

    -- `none` stands for a panic.
    unfoldable pub reload :
        GatewayConf N4 N6 → State o → Option (Result ReloadReport ConfError × State o)
    unfolding checks draw_all apply_conf rebuild_lookups rebuild_routes
    reload conf s = elim (checks o s.plan conf.peers) [
      | err e ↦ some (err e, s)
      | ok _ ↦ elim (draw_all s.by_label conf.peers s.indexes) [
        | none ↦ some (err too_many_peers, s)
        | some (fresh, indexes) ↦
            elim (apply_conf conf.peers fresh (record s { indexes = indexes })) [
              | none ↦ none
              | some (s', report) ↦ some (ok report, rebuild_routes o (rebuild_lookups o s'))
            ]
      ]
    ]
