-- ===== src/Responder/Reload/Revoked.antt =====
-- crates/warren-bolthole-core/src/responder.rs: `reload` comes to its end, and leaves no revoked peer.
use warren_sdk_rs.Prelude.{
  ℕ, ◌≤◌, ◌≡◌, ◌∙◌, sym, ap, subst, inl, inr, true, false, Option, none, some, List, [], ◌∷◌,
  Bool-cases, Option-cases, List-cases, is_some, length, arith,
}
use warren_sdk_rs.Prelude.Map.{Eq, nat_eq, list_eq, lookup}
use warren_sdk_rs.Prelude.Outcomes.{Result, ok, err, Result-cases}
use warren_sdk_rs.Conf.{PeerConf, ConfError, too_many_peers}
use warren_sdk_rs.Index.{IndexGen}
use warren_sdk_rs.Responder.Types.{Crates, GatewayConf, ReloadReport, Peer}
use warren_sdk_rs.Responder.Sessions.{State}
use warren_sdk_rs.Responder.Setup.{insert_peer_at, rebuild_lookups, rebuild_routes, checks}
use warren_sdk_rs.Responder.Reload.{
  is_wanted, draw_all, gone_of, no_changes, remove_gone, replace_peer, is_same, apply_all,
  apply_conf, reload,
}
use warren_sdk_rs.Responder.Reload.Draws.{
  Enough, needed, draw_all-Enough, needed_le, needed_new, AllWanted, self-AllWanted,
  gone_of-AllGone,
}
use warren_sdk_rs.Responder.Reload.Current.{
  wanted_at, Current, Known, remove_gone-Known, remove_gone-Current, replace_peer-Current,
  replace_peer-Known, insert_peer_at-Current, insert_peer_at-Known,
}

module _ {W T N4 N6 R : Type 0} (o : Crates W T N4 N6 R) (all : List (PeerConf N4 N6)) ⦃e4 : Eq N4⦄
    ⦃e6 : Eq N6⦄ where
  -- A label that no peer has now had none before.
  was_new :
      (by_label : List (List ℕ × ℕ)) (l : List ℕ) (s : State o)
      → is_wanted all l ≡ true
      → Known o all by_label s
      → lookup l s.by_label ≡ none
      → is_some (lookup l by_label) ≡ false
  unfolding Known
  was_new by_label l s w k e = elim (Bool-cases (is_some (lookup l by_label))) [
    | inr f ↦ f
    | inl f ↦ absurd (ground (arith, sym (k l w f) ∙ ap is_some e))
  ]

  -- The loop ends without a panic, and no revoked peer is live.
  unfoldable pub Applied : Option (State o × ReloadReport) → Type 0
  unfolding Current
  Applied none = ⊥
  Applied (some (s, report)) = Current o all s

  apply_all-Applied :
      (by_label : List (List ℕ × ℕ)) (confs : List (PeerConf N4 N6)) (fresh : List ℕ) (s : State o)
      (report : ReloadReport)
      → AllWanted all confs
      → needed by_label confs ≤ length fresh
      → Known o all by_label s
      → Current o all s
      → Applied (apply_all o confs fresh s report)
  unfolding apply_all AllWanted needed Applied
  apply_all-Applied by_label [] fresh s report a n k h = h
  apply_all-Applied by_label (conf ∷ confs) fresh s report a n k h =
      let less : needed by_label confs ≤ length fresh =
        omega (arith, needed_le by_label conf confs, n) in
      elim (Option-cases (lookup conf.label s.by_label)) [
        | inr (id, e) ↦ elim (Bool-cases (is_same o id conf s)) [
          | inl f ↦ rw (apply_all, e, f) (apply_all-Applied by_label confs fresh s _ a.1 less k h)
          | inr f ↦
              rw (apply_all, e, f)
                (apply_all-Applied by_label confs fresh (replace_peer o conf id s) _ a.1 less
                  (replace_peer-Known o all by_label conf id s k)
                  (replace_peer-Current o all conf id s h))
        ]
        | inl e ↦ elim (List-cases fresh) [
          | inl f ↦ absurd (
              omega (
                arith,
                n,
                ap length f,
                needed_new by_label conf confs (was_new by_label conf.label s a.0 k e),
              ))
          | inr (index, indexes, f) ↦
              rw (apply_all, e, f)
                (apply_all-Applied by_label confs indexes (insert_peer_at o conf index s) _ a.1
                  (omega (
                    arith,
                    n,
                    ap length f,
                    needed_new by_label conf confs (was_new by_label conf.label s a.0 k e),
                  ))
                  (insert_peer_at-Known o all by_label conf index s k)
                  (insert_peer_at-Current o all conf index s a.0 h))
        ]
      ]

  pub apply_conf-Applied :
      (fresh : List ℕ) (indexes : IndexGen) (s : State o)
      → draw_all s.by_label all s.indexes ≡ some (fresh, indexes)
      → Applied (apply_conf o all fresh (record s { indexes = indexes }))
  unfolding apply_conf Current Known
  apply_conf-Applied fresh indexes s g =
      let s1 : State o = record s { indexes = indexes } in
      let gone = gone_of all s.peers in
      let (s2, report) = remove_gone o gone s1 no_changes in
      let enough : needed s.by_label all ≤ length fresh =
        subst (Enough (needed s.by_label all)) g (draw_all-Enough s.by_label all s.indexes) in
      apply_all-Applied s.by_label all fresh s2 report (self-AllWanted all) enough
        (remove_gone-Known o all s.by_label gone s1 no_changes (gone_of-AllGone all s.peers)
          (λ l w k. k))
        (remove_gone-Current o all s1 no_changes)

module _ {W T N4 N6 R : Type 0} (o : Crates W T N4 N6 R) ⦃e4 : Eq N4⦄ ⦃e6 : Eq N6⦄ where
  -- What `reload` comes to.
  pub data Reloaded (conf : GatewayConf N4 N6) (s : State o)
      : Option (Result ReloadReport ConfError × State o) → Type 0 where
    invalid :
        (e : ConfError) → checks o s.plan conf.peers ≡ err e → Reloaded conf s (some (err e, s))
    exhausted :
        draw_all s.by_label conf.peers s.indexes ≡ none
        → Reloaded conf s (some (err too_many_peers, s))
    applied :
        (report : ReloadReport) (drawn : List ℕ × IndexGen) (s' : State o)
        → checks o s.plan conf.peers ≡ ok tt
        → draw_all s.by_label conf.peers s.indexes ≡ some drawn
        → ((id : ℕ) (peer : Peer T N4 N6)
            → lookup id s'.peers ≡ some peer
            → is_wanted conf.peers peer.label ≡ true)
        → Reloaded conf s (some (ok report, s'))

  -- A reload never panics. It is refused, and then leaves the state as it was, exactly for a configuration
  -- that a check refuses or where the generator has too few indexes left; otherwise it is applied, and no
  -- peer is live whose label the configuration does not have.
  pub reload-Reloaded : (conf : GatewayConf N4 N6) (s : State o) → Reloaded conf s (reload o conf s)
  unfolding reload rebuild_routes rebuild_lookups Applied Current
  reload-Reloaded conf s = elim (Result-cases (checks o s.plan conf.peers)) [
    | inr (e, f) ↦ rw (reload, f) (invalid e f)
    | inl (tt, f) ↦ elim (Option-cases (draw_all s.by_label conf.peers s.indexes)) [
      | inl g ↦ rw (reload, f, g) (exhausted g)
      | inr ((fresh, indexes), g) ↦
          let all = conf.peers in
          let s1 : State o = record s { indexes = indexes } in
          let done : Applied o all (apply_conf o all fresh s1) =
            apply_conf-Applied o all fresh indexes s g in
          elim (Option-cases (apply_conf o all fresh s1)) [
            | inl k ↦ absurd (subst (Applied o all) k done)
            | inr ((s3, report'), k) ↦
                let live : Current o all s3 = subst (Applied o all) k done in
                rw (reload, f, g, k)
                  (applied report' (fresh, indexes) _ f g
                    (λ id peer e. sym (ap (wanted_at all) e) ∙ live id))
          ]
    ]
  ]
