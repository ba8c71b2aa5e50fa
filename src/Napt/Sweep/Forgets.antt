-- ===== src/Napt/Sweep/Forgets.antt =====
-- What the whole loop of `sweep` forgets.
use warren_sdk_rs.Prelude.{ℕ, ◌≡◌, true, Option, none, some}
use warren_sdk_rs.Prelude.Map.{nat_eq}
use warren_sdk_rs.Napt.Types.{Napt}
use warren_sdk_rs.Napt.Sweep.Expiry.{IsRecent}
use warren_sdk_rs.Napt.Identity.{identity_at}
use warren_sdk_rs.Napt.Sweep.Order.{is_called}
use warren_sdk_rs.Napt.Sweep.Round.{swept}

module _ {R T : Type 0} where
  -- The loop ended, and forgot what is swept.
  unfoldable pub Forgets : Napt R T → ℕ → Option (ℕ × Napt R T) → Type 0
  unfolding is_called
  Forgets n now none = ⊥
  Forgets n now (some (removed, n')) =
      (k : ℕ) → identity_at n' k ≡ swept n.config now (is_called now k n.expiry) (identity_at n k)

  -- Each pinned forward that the heap calls was last seen within the last day.
  unfoldable pub AllRecent : Napt R T → ℕ → Type 0
  unfolding is_called
  AllRecent n now = (k : ℕ) → is_called now k n.expiry ≡ true → IsRecent n now k
