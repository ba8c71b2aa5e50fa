-- ===== src/Responder/Reload/Draws.antt =====
-- crates/warren-bolthole-core/src/responder.rs: the indexes that `reload` draws, and the peers that go.
use warren_sdk_rs.Prelude.{
  ℕ, ◌+◌, ◌≤◌, ◌≡◌, refl, subst, inl, inr, true, false, Option, none, some, List, [], ◌∷◌,
  Bool-cases, Option-cases, is_some, any, length, arith, if◌then◌else◌,
}
use warren_sdk_rs.Prelude.Map.{nat_eq, list_eq, list_beq_iff, lookup}
use warren_sdk_rs.Conf.{PeerConf}
use warren_sdk_rs.Index.{IndexGen}
use warren_sdk_rs.Responder.Types.{Peer}
use warren_sdk_rs.Responder.Setup.{draw}
use warren_sdk_rs.Responder.Reload.{is_wanted, draw_all, gone_of}

-- As many indexes were drawn as are needed.
abbrev pub Enough : ℕ → Option (List ℕ × IndexGen) → Type 0
Enough n none = Unit
Enough n (some (fresh, g)) = n ≤ length fresh

module _ {N4 N6 : Type 0} where
  -- How many of the peers wanted have a label that no peer has.
  unfoldable pub needed : List (List ℕ × ℕ) → List (PeerConf N4 N6) → ℕ
  needed by_label [] = 0
  needed by_label (conf ∷ confs) =
      let rest = needed by_label confs in
      if is_some (lookup conf.label by_label) then rest else rest + 1

  pub draw_all-Enough :
      (by_label : List (List ℕ × ℕ)) (confs : List (PeerConf N4 N6)) (g : IndexGen)
      → Enough (needed by_label confs) (draw_all by_label confs g)
  unfolding draw_all needed
  draw_all-Enough by_label [] g = omega arith
  draw_all-Enough by_label (conf ∷ confs) g = elim (Option-cases (lookup conf.label by_label)) [
    | inr (id, e) ↦ rw (draw_all, e) (draw_all-Enough by_label confs g)
    | inl e ↦ elim (Option-cases (draw g).0) [
      | inl f ↦ rw (draw_all, e, f) tt
      | inr (index, f) ↦
          let rest : Enough (needed by_label confs) (draw_all by_label confs (draw g).1) =
            draw_all-Enough by_label confs (draw g).1 in
          elim (Option-cases (draw_all by_label confs (draw g).1)) [
            | inl h ↦ rw (draw_all, e, f, h) tt
            | inr ((fresh, g'), h) ↦
                rw (draw_all, e, f, h)
                  (omega (arith, subst (Enough (needed by_label confs)) h rest))
          ]
    ]
  ]

  pub needed_le :
      (by_label : List (List ℕ × ℕ)) (conf : PeerConf N4 N6) (confs : List (PeerConf N4 N6))
      → needed by_label confs ≤ needed by_label (conf ∷ confs)
  unfolding needed
  needed_le by_label conf confs = ground arith

  pub needed_new :
      (by_label : List (List ℕ × ℕ)) (conf : PeerConf N4 N6) (confs : List (PeerConf N4 N6))
      → is_some (lookup conf.label by_label) ≡ false
      → needed by_label (conf ∷ confs) ≡ needed by_label confs + 1
  unfolding needed
  needed_new by_label conf confs e = rw (e) refl

  unfoldable pub AllWanted : List (PeerConf N4 N6) → List (PeerConf N4 N6) → Type 0
  AllWanted all [] = Unit
  AllWanted all (conf ∷ confs) = (is_wanted all conf.label ≡ true) × AllWanted all confs

  more-AllWanted :
      (c : PeerConf N4 N6) (all confs : List (PeerConf N4 N6))
      → AllWanted all confs
      → AllWanted (c ∷ all) confs
  unfolding AllWanted is_wanted any
  more-AllWanted c all [] h = tt
  more-AllWanted c all (conf ∷ confs) h = (ground (arith, h.0), more-AllWanted c all confs h.1)

  pub self-AllWanted : (confs : List (PeerConf N4 N6)) → AllWanted confs confs
  unfolding AllWanted is_wanted any
  self-AllWanted [] = tt
  self-AllWanted (c ∷ confs) = (
    ground (arith, list_beq_iff c.label c.label),
    more-AllWanted c confs confs (self-AllWanted confs),
  )

  -- The labels of peers that are gone are not wanted.
  unfoldable pub AllGone : List (PeerConf N4 N6) → List (ℕ × List ℕ) → Type 0
  AllGone all [] = Unit
  AllGone all ((id, label) ∷ gone) = (is_wanted all label ≡ false) × AllGone all gone

  pub gone_of-AllGone :
      {T : Type 0} (all : List (PeerConf N4 N6)) (peers : List (ℕ × Peer T N4 N6))
      → AllGone all (gone_of all peers)
  unfolding AllGone gone_of
  gone_of-AllGone all [] = tt
  gone_of-AllGone all ((id, peer) ∷ peers) = elim (Bool-cases (is_wanted all peer.label)) [
    | inl e ↦ rw (gone_of, e) (gone_of-AllGone all peers)
    | inr e ↦ rw (gone_of, e) (e, gone_of-AllGone all peers)
  ]
