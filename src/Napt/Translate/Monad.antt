-- ===== src/Napt/Translate/Monad.antt =====
-- Steps over a packet and a translator, which may refuse the packet.
use warren_sdk_rs.Prelude.{ℕ, Bool, Option, none, some, List, if◌then◌else◌}
use warren_sdk_rs.Bytes.{Checked}
use warren_sdk_rs.Napt.Types.{NatDrop, drop_of, Napt}
use warren_sdk_rs.Napt.Table.{Answer}

pub data Run (A : Type 0) : Type 0 where
  done : A → Run A
  refused : NatDrop → Run A
  panics : Run A

-- The packet and the translator.
pub record Machine (R T : Type 0) : Type 0 where
  pub pkt : List ℕ
  pub nat : Napt R T

abbrev pub Step : Type 0 → Type 0 → Type 0 → Type 0
Step R T A = Machine R T → Run A × Machine R T

abbrev pub checked : {A : Type 0} → Checked A → Run A
checked (Checked.ok a) = done a
checked (Checked.err e) = refused (drop_of e)
checked Checked.panic = panics

module _ {R T : Type 0} where
  infixl 5 ◌>>=◌ ◌>>◌
  unfoldable pub ◌>>=◌ : {A B : Type 0} → Step R T A → (A → Step R T B) → Step R T B
  ◌>>=◌ m f s = elim (m s).0 [
    | done a ↦ f a (m s).1
    | refused d ↦ (refused d, (m s).1)
    | panics ↦ (panics, (m s).1)
  ]

  unfoldable pub ◌>>◌ : {B : Type 0} → Step R T (Unit {0}) → Step R T B → Step R T B
  m >> k = m >>= λ _. k

  unfoldable pub pure : {A : Type 0} → A → Step R T A
  pure a s = (done a, s)

  unfoldable pub refuse : {A : Type 0} → NatDrop → Step R T A
  refuse d s = (refused d, s)

  unfoldable pub refuse_if : Bool → NatDrop → Step R T (Unit {0})
  refuse_if test d s = (if test then refused d else done tt, s)

  -- `o.ok_or(d)?`.
  unfoldable pub require : {A : Type 0} → Option A → NatDrop → Step R T A
  require o d s = (elim o [ none ↦ refused d | some a ↦ done a ], s)

  -- A read of the packet, and a write of it.
  unfoldable pub read : {A : Type 0} → (List ℕ → Checked A) → Step R T A
  read f s = (checked (f s.pkt), s)

  unfoldable pub edit : (List ℕ → Checked (List ℕ)) → Step R T (Unit {0})
  edit f s = elim (f s.pkt) [
    | Checked.ok pkt ↦ (done tt, record s { pkt = pkt })
    | Checked.err e ↦ (refused (drop_of e), s)
    | Checked.panic ↦ (panics, s)
  ]

  -- A call that leaves the packet alone.
  unfoldable pub call : {A : Type 0} → (Napt R T → Answer A × Napt R T) → Step R T A
  call f s = (
    elim (f s.nat).0 [ Answer.ok a ↦ done a | Answer.err d ↦ refused d ],
    record s { nat = (f s.nat).1 },
  )

  unfoldable pub get : {A : Type 0} → (Napt R T → A) → Step R T A
  get f s = (done (f s.nat), s)
