-- ===== src/Napt/Translate/Keeps.antt =====
-- Steps that leave the counters alone.
use warren_sdk_rs.Prelude.{ℕ, ◌≡◌, ◌∙◌, refl, Bool, Option, List}
use warren_sdk_rs.Bytes.{Checked}
use warren_sdk_rs.Napt.Types.{NatDrop, drop_of, Napt}
use warren_sdk_rs.Napt.Table.{Answer}
use warren_sdk_rs.Napt.Translate.Monad.{
  Run, done, refused, panics, Machine, Step, ◌>>=◌, ◌>>◌, pure, refuse, refuse_if, require, read,
  edit, call, get,
}

module _ {R T : Type 0} where
  pub record Keeps {A : Type 0} (m : Step R T A) : Type 0 where
    pub counts : (s : Machine R T) → (m s).1.nat.counters ≡ s.nat.counters

  pub bind-Keeps :
      {A B : Type 0} {m : Step R T A} {f : A → Step R T B}
      → Keeps m
      → ((a : A) → Keeps (f a))
      → Keeps (m >>= f)
  unfolding ◌>>=◌
  bind-Keeps {A = A} {B = B} {m = m} {f = f} km kf = record {
    counts = λ s. next s (m s).0 (m s).1 (km.counts s);
  }
    where
      next :
          (s : Machine R T) (r : Run A) (s' : Machine R T)
          → s'.nat.counters ≡ s.nat.counters
          → (let x : Run B × Machine R T = elim r [
            | done a ↦ f a s'
            | refused d ↦ (refused d, s')
            | panics ↦ (panics, s')
          ] in
              x.1.nat.counters ≡ s.nat.counters)
      next s (done a) s' e = (kf a).counts s' ∙ e
      next s (refused d) s' e = e
      next s panics s' e = e

  pub then-Keeps :
      {B : Type 0} {m : Step R T (Unit {0})} {k : Step R T B} → Keeps m → Keeps k → Keeps (m >> k)
  unfolding ◌>>◌
  then-Keeps km kk = bind-Keeps km (λ _. kk)

  pub pure-Keeps : {A : Type 0} (a : A) → Keeps (pure a)
  unfolding pure
  pure-Keeps a = record { counts = λ s. refl }

  pub refuse-Keeps : {A : Type 0} (d : NatDrop) → Keeps {A = A} (refuse d)
  unfolding refuse
  refuse-Keeps d = record { counts = λ s. refl }

  pub refuse_if-Keeps : (test : Bool) (d : NatDrop) → Keeps (refuse_if test d)
  unfolding refuse_if
  refuse_if-Keeps test d = record { counts = λ s. refl }

  pub require-Keeps : {A : Type 0} (o : Option A) (d : NatDrop) → Keeps (require o d)
  unfolding require
  require-Keeps o d = record { counts = λ s. refl }

  pub read-Keeps : {A : Type 0} (f : List ℕ → Checked A) → Keeps (read f)
  unfolding read
  read-Keeps f = record { counts = λ s. refl }

  pub get-Keeps : {A : Type 0} (f : Napt R T → A) → Keeps (get f)
  unfolding get
  get-Keeps f = record { counts = λ s. refl }

  pub edit-Keeps : (f : List ℕ → Checked (List ℕ)) → Keeps (edit f)
  unfolding edit
  edit-Keeps f = record { counts = λ s. written s (f s.pkt) }
    where
      written :
          (s : Machine R T) (r : Checked (List ℕ))
          → (let x : Run (Unit {0}) × Machine R T = elim r [
            | Checked.ok pkt ↦ (done tt, record s { pkt = pkt })
            | Checked.err e ↦ (refused (drop_of e), s)
            | Checked.panic ↦ (panics, s)
          ] in
              x.1.nat.counters ≡ s.nat.counters)
      written s (Checked.ok pkt) = refl
      written s (Checked.err e) = refl
      written s Checked.panic = refl

  pub call-Keeps :
      {A : Type 0} (f : Napt R T → Answer A × Napt R T)
      → ((n : Napt R T) → (f n).1.counters ≡ n.counters)
      → Keeps (call f)
  unfolding call
  call-Keeps f k = record { counts = λ s. k s.nat }
