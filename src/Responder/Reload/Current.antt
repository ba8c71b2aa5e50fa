-- ===== src/Responder/Reload/Current.antt =====
-- crates/warren-bolthole-core/src/responder.rs: the peers that the steps of `reload` leave.
use warren_sdk_rs.Prelude.{
  ℕ, ◌≡◌, ◌∙◌, refl, ap, Bool, true, false, ◌||◌, Option, none, some, List, [], ◌∷◌, is_some, arith,
  ◌==◌, if◌then◌else◌,
}
use warren_sdk_rs.Prelude.Map.{nat_eq, list_eq, list_beq_iff, lookup, lookup-remove, lookup-insert}
use warren_sdk_rs.Prelude.Ordered.{mapped, lookup-update, lookup-put}
use warren_sdk_rs.Conf.{PeerConf}
use warren_sdk_rs.Responder.Types.{Crates, ReloadReport, Peer}
use warren_sdk_rs.Responder.Sessions.{State}
use warren_sdk_rs.Responder.Timers.{build_tunn}
use warren_sdk_rs.Responder.Setup.{fresh_peer, insert_peer_at}
use warren_sdk_rs.Responder.Reload.{is_wanted, gone_of, remove_gone, replace_peer}
use warren_sdk_rs.Responder.Reload.Draws.{AllGone}

-- The label of the peer, if there is one, is wanted.
abbrev pub wanted_at : {T N4 N6 : Type 0} → List (PeerConf N4 N6) → Option (Peer T N4 N6) → Bool
wanted_at all none = true
wanted_at all (some peer) = is_wanted all peer.label

module _ {W T N4 N6 R : Type 0} (o : Crates W T N4 N6 R) (all : List (PeerConf N4 N6)) where
  -- Every live peer has a label that is wanted.
  unfoldable pub Current : State o → Type 0
  Current s = (id : ℕ) → wanted_at all (lookup id s.peers) ≡ true

  -- A label that is wanted and was known is still known.
  unfoldable pub Known : List (List ℕ × ℕ) → State o → Type 0
  Known by_label s =
      (l : List ℕ)
      → is_wanted all l ≡ true
      → is_some (lookup l by_label) ≡ true
      → is_some (lookup l s.by_label) ≡ true

  pub remove_gone-Known :
      (by_label : List (List ℕ × ℕ)) (gone : List (ℕ × List ℕ)) (s : State o)
      (report : ReloadReport)
      → AllGone all gone
      → Known by_label s
      → Known by_label (remove_gone o gone s report).0
  unfolding remove_gone Known AllGone
  remove_gone-Known by_label [] s report h k = k
  remove_gone-Known by_label ((id, label) ∷ gone) s report h k =
      remove_gone-Known by_label gone _ _ h.1 (λ l w known.
        ap is_some (lookup-remove label l s.by_label)
        ∙ ground (arith, h.0, w, k l w known, list_beq_iff label l))

  -- What stands under an identifier is the peer that stood there, or nothing where it is gone.
  unfoldable pub listed : ℕ → List (ℕ × List ℕ) → Bool
  listed id [] = false
  listed id ((j, label) ∷ gone) = (j == id) || listed id gone

  pub remove_gone-lookup :
      (id : ℕ) (gone : List (ℕ × List ℕ)) (s : State o) (report : ReloadReport)
      → lookup id (remove_gone o gone s report).0.peers
        ≡ (if listed id gone then none else lookup id s.peers)
  unfolding remove_gone listed
  remove_gone-lookup id [] s report = refl
  remove_gone-lookup id ((j, label) ∷ gone) s report =
      remove_gone-lookup id gone _ _ ∙ ground (arith, lookup-remove j id s.peers)

  gone_of-listed :
      (id : ℕ) (peers : List (ℕ × Peer T N4 N6))
      → wanted_at all (if listed id (gone_of all peers) then none else lookup id peers) ≡ true
  unfolding gone_of listed lookup
  gone_of-listed id [] = refl
  gone_of-listed id ((j, peer) ∷ peers) = ground (arith, gone_of-listed id peers)

  pub remove_gone-Current :
      (s : State o) (report : ReloadReport)
      → Current (remove_gone o (gone_of all s.peers) s report).0
  unfolding Current
  remove_gone-Current s report id =
      ap (wanted_at all) (remove_gone-lookup id (gone_of all s.peers) s report)
      ∙ gone_of-listed id s.peers

  mapped_wanted :
      (b : Bool) (f : Peer T N4 N6 → Peer T N4 N6) (found : Option (Peer T N4 N6))
      → ((p : Peer T N4 N6) → (f p).label ≡ p.label)
      → wanted_at all found ≡ true
      → wanted_at all (if b then mapped f found else found) ≡ true
  mapped_wanted true f none h w = refl
  mapped_wanted true f (some p) h w = ap (is_wanted all) (h p) ∙ w
  mapped_wanted false f found h w = w

  pub replace_peer-Current :
      (conf : PeerConf N4 N6) (id : ℕ) (s : State o)
      → Current s
      → Current (replace_peer o conf id s)
  unfolding replace_peer build_tunn Current
  replace_peer-Current conf id s h j =
      ap (wanted_at all) (lookup-update id j _ s.peers)
      ∙ mapped_wanted (id == j) _ (lookup j s.peers) (λ p. refl) (h j)

  pub replace_peer-Known :
      (by_label : List (List ℕ × ℕ)) (conf : PeerConf N4 N6) (id : ℕ) (s : State o)
      → Known by_label s
      → Known by_label (replace_peer o conf id s)
  unfolding replace_peer build_tunn Known
  replace_peer-Known by_label conf id s k = k

  pub insert_peer_at-Current :
      (conf : PeerConf N4 N6) (index : ℕ) (s : State o)
      → is_wanted all conf.label ≡ true
      → Current s
      → Current (insert_peer_at o conf index s)
  unfolding insert_peer_at build_tunn fresh_peer Current
  insert_peer_at-Current conf index s w h j =
      ap (wanted_at all) (lookup-put index j _ s.peers) ∙ ground (arith, w, h j)

  pub insert_peer_at-Known :
      (by_label : List (List ℕ × ℕ)) (conf : PeerConf N4 N6) (index : ℕ) (s : State o)
      → Known by_label s
      → Known by_label (insert_peer_at o conf index s)
  unfolding insert_peer_at build_tunn Known
  insert_peer_at-Known by_label conf index s k l w known =
      ap is_some (lookup-insert conf.label l index s.by_label) ∙ ground (arith, k l w known)
