-- ===== src/Responder/Reload/Kept.antt =====
-- crates/warren-bolthole-core/src/responder.rs: what `reload` leaves of a peer that it does not change.
use warren_sdk_rs.Prelude.{ℕ, ◌≡◌, true, Option, none, some, List, [], ◌∷◌}
use warren_sdk_rs.Prelude.Map.{Eq, nat_eq, list_eq, lookup}
use warren_sdk_rs.Prelude.Outcomes.{Result}
use warren_sdk_rs.Conf.{PeerConf, ConfError}
use warren_sdk_rs.Responder.Types.{Crates, ReloadReport, Peer}
use warren_sdk_rs.Responder.Sessions.{State}
use warren_sdk_rs.Responder.Reload.{same_material}

module _ {W T N4 N6 R : Type 0} (o : Crates W T N4 N6 R) (id : ℕ) (peer : Peer T N4 N6) ⦃e4 : Eq N4⦄
    ⦃e6 : Eq N6⦄ where
  -- What the configuration has under the peer's label is the material that the peer has.
  unfoldable pub SameAll : List (PeerConf N4 N6) → Type 0
  SameAll [] = Unit
  SameAll (conf ∷ confs) =
      (conf.label ≡ peer.label → same_material peer conf ≡ true) × SameAll confs

  -- What the changes leave under the identifier, if they end without a panic.
  KeptBy : Option (State o × ReloadReport) → Type 0
  KeptBy none = Unit
  KeptBy (some (s, report)) = lookup id s.peers ≡ some peer

  -- What a reload leaves under the identifier; a panic leaves nothing.
  unfoldable pub KeepsPeer : Option (Result ReloadReport ConfError × State o) → Type 0
  KeepsPeer none = ⊥
  KeepsPeer (some (result, s)) = lookup id s.peers ≡ some peer
