-- ===== src/Responder/Reload/Held.antt =====
-- crates/warren-bolthole-core/src/responder.rs: a peer that the steps of `reload` pass by.
use warren_sdk_rs.Prelude.{
  ℕ, ◌≡◌, ◌≢◌, ◌∙◌, refl, ap, inl, inr, Bool, true, false, Option, none, some, List, [], ◌∷◌,
  Bool-cases, arith, ◌==◌, ==_iff, if◌then◌else◌,
}
use warren_sdk_rs.Prelude.Map.{nat_eq, list_eq, list_beq, lookup, lookup-remove, lookup-insert}
use warren_sdk_rs.Prelude.Ordered.{lookup-update, lookup-put}
use warren_sdk_rs.Conf.{PeerConf}
use warren_sdk_rs.Index.{IndexGen}
use warren_sdk_rs.Responder.Types.{Crates, ReloadReport, Peer}
use warren_sdk_rs.Responder.Sessions.{State}
use warren_sdk_rs.Responder.Timers.{build_tunn}
use warren_sdk_rs.Responder.Setup.{insert_peer_at}
use warren_sdk_rs.Responder.Reload.{is_wanted, gone_of, remove_gone, replace_peer}
use warren_sdk_rs.Responder.Reload.Current.{listed}

-- A map has one entry for a key.
unfoldable pub IsMap : {V : Type 0} → List (ℕ × V) → Type 0
IsMap [] = Unit
IsMap ((k, v) ∷ m) = (lookup k m ≡ none) × IsMap m

-- None of the indexes is the peer's.
unfoldable pub Absent : ℕ → List ℕ → Type 0
Absent id [] = Unit
Absent id (index ∷ indexes) = (index ≢ id) × Absent id indexes

unfoldable pub DrawnAbsent : ℕ → Option (List ℕ × IndexGen) → Type 0
unfolding Absent
DrawnAbsent id none = Unit
DrawnAbsent id (some drawn) = Absent id drawn.0

pub some_injective : {A : Type 0} {x y : A} → some x ≡ some y → x ≡ y
some_injective e = grind (arith, e)

pub true_is_not_false : true ≡ false → ⊥
true_is_not_false e = ground (arith, e)

pub not_taken : {A : Type 0} (b : Bool) (x y : A) → b ≡ false → (if b then x else y) ≡ y
not_taken b x y f = ground (arith, f)

module _ {W T N4 N6 R : Type 0} (o : Crates W T N4 N6 R) (id : ℕ) (peer : Peer T N4 N6) where
  -- Only the peer's label leads to it.
  unfoldable pub IsNamed : List (List ℕ × ℕ) → Type 0
  IsNamed by_label = (l : List ℕ) → lookup l by_label ≡ some id → l ≡ peer.label

  unlisted :
      (all : List (PeerConf N4 N6)) (peers : List (ℕ × Peer T N4 N6))
      → lookup id peers ≡ none
      → listed o all id (gone_of all peers) ≡ false
  unfolding listed gone_of lookup
  unlisted all [] e = refl
  unlisted all ((j, p) ∷ peers) e = ground (arith, e, unlisted all peers)

  pub stays :
      (all : List (PeerConf N4 N6)) (peers : List (ℕ × Peer T N4 N6))
      → IsMap peers
      → lookup id peers ≡ some peer
      → is_wanted all peer.label ≡ true
      → listed o all id (gone_of all peers) ≡ false
  unfolding listed gone_of lookup IsMap
  stays all [] u e w = ground (arith, e)
  stays all ((j, p) ∷ peers) u e w = elim (Bool-cases (j == id)) [
    | inr f ↦ ground (arith, f, stays all peers u.1 (ground (arith, e, f)) w)
    | inl f ↦ ground (
      arith,
      unlisted all peers (ground (arith, u.0, ==_iff j id, f)),
      w,
      ap (λ q. is_wanted all q.label) (some_injective (found f)),
    )
  ]
    where
      found : (j == id) ≡ true → some p ≡ some peer
      found f = ground (arith, e, f)

  pub remove_gone-IsNamed :
      (gone : List (ℕ × List ℕ)) (s : State o) (report : ReloadReport)
      → IsNamed s.by_label
      → IsNamed (remove_gone o gone s report).0.by_label
  unfolding remove_gone IsNamed
  remove_gone-IsNamed [] s report h = h
  remove_gone-IsNamed ((j, label) ∷ gone) s report h =
      remove_gone-IsNamed gone _ _
        (λ l e. h l (ground (arith, e, lookup-remove label l s.by_label)))

  pub replace_peer-keeps :
      (conf : PeerConf N4 N6) (j : ℕ) (s : State o)
      → (j == id) ≡ false
      → lookup id s.peers ≡ some peer
      → lookup id (replace_peer o conf j s).peers ≡ some peer
  unfolding replace_peer build_tunn
  replace_peer-keeps conf j s f live =
      lookup-update j id _ s.peers ∙ not_taken (j == id) _ _ f ∙ live

  pub insert_peer_at-keeps :
      (conf : PeerConf N4 N6) (index : ℕ) (s : State o)
      → index ≢ id
      → lookup id s.peers ≡ some peer
      → lookup id (insert_peer_at o conf index s).peers ≡ some peer
  unfolding insert_peer_at build_tunn
  insert_peer_at-keeps conf index s f live =
      lookup-put index id _ s.peers
      ∙ not_taken (index == id) _ _ (ground (arith, f, ==_iff index id))
      ∙ live

  pub insert_peer_at-IsNamed :
      (conf : PeerConf N4 N6) (index : ℕ) (s : State o)
      → index ≢ id
      → IsNamed s.by_label
      → IsNamed (insert_peer_at o conf index s).by_label
  unfolding insert_peer_at build_tunn IsNamed
  insert_peer_at-IsNamed conf index s f h l e = elim (Bool-cases (list_beq conf.label l)) [
    | inr g ↦ h l (ground (arith, e, g, lookup-insert conf.label l index s.by_label))
    | inl g ↦
        absurd
          (f (some_injective (ground (arith, e, g, lookup-insert conf.label l index s.by_label))))
  ]
