-- ===== src/Index/Issue.antt =====
-- Runs of one generator of index.rs, and what is asked of the indexes that they give.
use warren_sdk_rs.Prelude.{ℕ, zero, suc, ◌≤◌, ◌≢◌, Option, none, some, List, [], ◌∷◌}
use warren_sdk_rs.Index.{IndexGen, max_index, next}

-- The indexes that `n` calls hand out, until one is refused.
unfoldable pub issue : ℕ → IndexGen → List ℕ
issue zero g = []
issue (suc n) g = elim (next g) [
  | none ↦ []
  | some (none, g') ↦ []
  | some (some index, g') ↦ index ∷ issue n g'
]

-- The generator after `n` calls; `none` where a call has not come to an end.
unfoldable pub after : ℕ → IndexGen → Option IndexGen
after zero g = some g
after (suc n) g = elim (next g) [ none ↦ none | some (_, g') ↦ after n g' ]

-- No two entries are the same, and all are indexes that the wire field holds.
abbrev pub NotIn : ℕ → List ℕ → Type 0
NotIn x [] = Unit {0}
NotIn x (y ∷ ys) = (x ≢ y) × NotIn x ys

abbrev pub Indexes : List ℕ → Type 0
Indexes [] = Unit {0}
Indexes (x ∷ xs) = (1 ≤ x) × (x ≤ max_index) × NotIn x xs × Indexes xs
