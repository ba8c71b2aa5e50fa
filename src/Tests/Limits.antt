-- ===== src/Tests/Limits.antt =====
-- The token buckets of ratelimit.rs and the indexes of index.rs.
use warren_sdk_rs.Prelude.{
  ℕ, ◌+◌, ◌-◌, ◌*◌, ◌≤◌, ◌≡◌, refl, some, List, [], ◌∷◌, arith, if◌then◌else◌,
}
use warren_sdk_rs.Prelude.Map.{nat_eq, lookup}
use warren_sdk_rs.RateLimit.TokenBucket.{admits}
use warren_sdk_rs.RateLimit.TokenBucket
use warren_sdk_rs.RateLimit.TokenBucket.Budget.{admits-le_budget}
use warren_sdk_rs.RateLimit.HandshakeBuckets.{HandshakeBuckets, with_limits, admit}
use warren_sdk_rs.RateLimit.HandshakeBuckets.Memory.{serve}
use warren_sdk_rs.RateLimit.HandshakeBuckets.Refinement.{
  view, rotates, bucket_of, admit-view_self, admit-view_other,
}
use warren_sdk_rs.Index.{IndexGen, from_seed}
use warren_sdk_rs.Index.Issue.{issue, after, Indexes}
use warren_sdk_rs.Index.Distinct.{issue-Indexes, after-from_seed}

-- Two tokens, two a second: the third call at once is refused, and half a second buys the fourth.
abbrev times : List ℕ
times = 1_000_000_000 ∷ 1_000_000_000 ∷ 1_500_000_000 ∷ []

admits-le_budget_example :
    1_000_000_000 * (admits (TokenBucket.new 2 2) (1_000_000_000 ∷ times)).0
    ≤ 1_000_000_000 * 2 + 2 * (1_500_000_000 - 1_000_000_000)
admits-le_budget_example =
    admits-le_budget 2 2 1_000_000_000 1_500_000_000 times
      (omega arith, (omega arith, (omega arith, (omega arith, tt))))

abbrev two_sources : HandshakeBuckets ℕ
two_sources = with_limits 5 10 2

abbrev calls : List (ℕ × ℕ)
calls = (1, 0) ∷ (2, 0) ∷ (3, 0) ∷ (4, 0) ∷ (5, 0) ∷ (6, 0) ∷ []

-- The source 1 has called before, and its generation is full.
abbrev one_more : HandshakeBuckets ℕ
one_more = serve two_sources ((1, 0) ∷ (2, 0) ∷ [])

admit-view_self_example :
    ((admit one_more 1 5).0 ≡ (TokenBucket.admit (view one_more 1) 5).0)
    × (view (admit one_more 1 5).1 1 ≡ (TokenBucket.admit (view one_more 1) 5).1)
admit-view_self_example = admit-view_self one_more 1 5

admit-view_other_example : view (admit one_more 3 5).1 1 ≡ (
    if rotates one_more 3 5
    then bucket_of one_more (lookup 1 one_more.current)
    else view one_more 1)
admit-view_other_example = admit-view_other one_more 3 1 5 refl

issue-Indexes_example : Indexes (issue 100 (from_seed 0xabcdef 0x123456))
issue-Indexes_example = issue-Indexes 100 0xabcdef 0x123456

after-from_seed_example : (g : IndexGen) × (after 100 (from_seed 0xabcdef 0x123456) ≡ some g)
after-from_seed_example = after-from_seed 100 0xabcdef 0x123456
