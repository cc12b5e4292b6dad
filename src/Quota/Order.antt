-- ===== src/Quota/Order.antt =====
-- quota_priority.go: compareQuotaPriority as an order.
use cpa_codex_quota_schedule.Common.{ℕ, Bool, true, false, ◌≡◌, ◌≢◌, refl, arith}
use cpa_codex_quota_schedule.Quota.Priority.{
  Priority, Comparison, less, equal, greater, compare_pair, compare_protected,
  compare_quota_priority,
}

abbrev pub flip : Comparison → Comparison
flip less = greater
flip equal = equal
flip greater = less

-- How the comparison of the first with the third follows from those with the second.
abbrev pub Composes : Comparison → Comparison → Comparison → Type 0
Composes equal s t = t ≡ s
Composes less equal t = t ≡ less
Composes less less t = t ≡ less
Composes less greater t = Unit
Composes greater equal t = t ≡ greater
Composes greater less t = Unit
Composes greater greater t = t ≡ greater

compare_pair-flip :
    (a b : ℕ) (r r' : Comparison) → r' ≡ flip r → compare_pair b a r' ≡ flip (compare_pair a b r)
compare_pair-flip a b r r' h = ground arith

compare_protected-flip : (a b : Bool) → compare_protected b a ≡ flip (compare_protected a b)
compare_protected-flip false false = refl
compare_protected-flip false true = refl
compare_protected-flip true false = refl
compare_protected-flip true true = refl

-- Comparing in the other order gives the opposite result.
pub compare-flip : (a b : Priority) → compare_quota_priority b a ≡ flip (compare_quota_priority a b)
unfolding compare_quota_priority
compare-flip a b = compare_pair-flip a.tier b.tier _ _ (
    compare_pair-flip a.window_rank b.window_rank _ _ (
      compare_pair-flip a.deadline_kind b.deadline_kind _ _ (
        compare_pair-flip a.reset_at b.reset_at _ _
          (compare_protected-flip a.weekly_protected b.weekly_protected))))

compare_pair-Composes :
    (a b c : ℕ) (r s t : Comparison)
    → Composes r s t
    → Composes (compare_pair a b r) (compare_pair b c s) (compare_pair a c t)
compare_pair-Composes a b c r s t h = ground arith

compare_protected-Composes :
    (a b c : Bool)
    → Composes (compare_protected a b) (compare_protected b c) (compare_protected a c)
compare_protected-Composes false false c = refl
compare_protected-Composes true true c = refl
compare_protected-Composes false true false = tt
compare_protected-Composes false true true = refl
compare_protected-Composes true false false = refl
compare_protected-Composes true false true = tt

pub compare-Composes :
    (a b c : Priority)
    → Composes
        (compare_quota_priority a b)
        (compare_quota_priority b c)
        (compare_quota_priority a c)
unfolding compare_quota_priority
compare-Composes a b c = compare_pair-Composes a.tier b.tier c.tier _ _ _ (
    compare_pair-Composes a.window_rank b.window_rank c.window_rank _ _ _ (
      compare_pair-Composes a.deadline_kind b.deadline_kind c.deadline_kind _ _ _ (
        compare_pair-Composes a.reset_at b.reset_at c.reset_at _ _ _
          (compare_protected-Composes a.weekly_protected b.weekly_protected c.weekly_protected))))

-- A priority that is not above a second, which is not above a third, is not above the third.
pub compare_transitive :
    (a b c : Priority)
    → compare_quota_priority a b ≢ greater
    → compare_quota_priority b c ≢ greater
    → compare_quota_priority a c ≢ greater
compare_transitive a b c h k = go _ _ _ (compare-Composes a b c) h k
  where
    go : (r s t : Comparison) → Composes r s t → r ≢ greater → s ≢ greater → t ≢ greater
    go equal s t e h k = λ x. k (cc)
    go less equal t e h k = λ x. cc
    go less less t e h k = λ x. cc
    go less greater t e h k = absurd (k refl)
    go greater s t e h k = absurd (h refl)
