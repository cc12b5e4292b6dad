-- ===== src/Quota/Priority.antt =====
-- quota_priority.go: the priority that every selector gives a credential, and the next group of
-- equal priority.
use cpa_codex_quota_schedule.Common.{
  ℕ, ◌+◌, Bool, true, false, not, ◌&&◌, ◌||◌, List, [], ◌∷◌, ltb, if◌then◌else◌, Text, text, same,
  Time, is_zero, before, after, length,
}
use cpa_codex_quota_schedule.Quota.{QuotaWindow, QuotaSnapshot, normalize_window_class}
use cpa_codex_quota_schedule.Quota.Cycle.{has_placeholder_reset, cycle_started}

-- What quota_priority.go reads of a serialCandidate.
pub record Candidate : Type 0 where
  pub snapshot : QuotaSnapshot
  pub quota_known : Bool
  pub eligible : Bool
  pub window_class : Text
  pub five_hour_known : Bool
  pub weekly_protected : Bool

pub record Priority : Type 0 where
  pub tier : ℕ
  pub window : Text
  pub window_rank : ℕ
  pub deadline_kind : ℕ
  pub reset_at : Time
  pub weekly_protected : Bool

pub data Comparison : Type 0 where
  less equal greater : Comparison

-- pacing.go: the index of the class in the order, or len(order) + 10.
unfoldable pub rank_from : ℕ → ℕ → Text → List Text → ℕ
rank_from i n class [] = n + 10
rank_from i n class (item ∷ order) =
    let rest = rank_from (i + 1) n class order in if same item class then i else rest

unfoldable pub window_rank_in_order : Text → List Text → ℕ
window_rank_in_order class order = rank_from 0 (length order) class order

unfoldable pub add_window : QuotaSnapshot → Time → Priority → QuotaWindow → Priority
add_window s now p w =
    if not (same (normalize_window_class w.class) p.window)
      || (not (is_zero w.reset_at) && not (after w.reset_at now))
    then p
    else (if has_placeholder_reset w s.refreshed_at now
        then (if ltb 1 p.deadline_kind then record p { deadline_kind = 1 } else p)
        else (if not (is_zero w.reset_at)
              && cycle_started w s.refreshed_at now
              && (is_zero p.reset_at || before w.reset_at p.reset_at)
            then record p { deadline_kind = 0; reset_at = w.reset_at }
            else p))

unfoldable pub add_windows : QuotaSnapshot → Time → Priority → List QuotaWindow → Priority
add_windows s now p [] = p
add_windows s now p (w ∷ ws) = add_windows s now (add_window s now p w) ws

unfoldable pub quota_priority_for : Candidate → List Text → Time → Priority
quota_priority_for c order now =
    let window = if c.quota_known then c.window_class else text "unknown" in
    add_windows c.snapshot now
      (record {
        tier = if not c.quota_known then 1 else (if not c.eligible then 2 else 0);
        window = window;
        window_rank = window_rank_in_order window order;
        deadline_kind = 2;
        reset_at = 0;
        weekly_protected = c.weekly_protected;
      })
      c.snapshot.windows

-- One pair of the loop: decided, or on to the rest.
abbrev pub compare_pair : ℕ → ℕ → Comparison → Comparison
compare_pair a b rest = if ltb a b then less else (if ltb b a then greater else rest)

abbrev pub compare_protected : Bool → Bool → Comparison
compare_protected false true = less
compare_protected true false = greater
compare_protected false false = equal
compare_protected true true = equal

unfoldable pub compare_quota_priority : Priority → Priority → Comparison
compare_quota_priority a b = compare_pair a.tier b.tier (
    compare_pair a.window_rank b.window_rank (
      compare_pair a.deadline_kind b.deadline_kind (
        compare_pair a.reset_at b.reset_at
          (compare_protected a.weekly_protected b.weekly_protected))))

abbrev pub is_less : Comparison → Bool
is_less less = true
is_less equal = false
is_less greater = false

abbrev pub is_equal : Comparison → Bool
is_equal equal = true
is_equal less = false
is_equal greater = false

unfoldable pub affinity_must_yield : Candidate → List Candidate → List Text → Bool
affinity_must_yield current [] order = false
affinity_must_yield current (c ∷ cs) order =
    let rest = affinity_must_yield current cs order in
    if not current.quota_known || current.five_hour_known
    then false
    else (if c.eligible
          && c.quota_known
          && c.five_hour_known
          && ltb (window_rank_in_order (text "5h") order)
              (window_rank_in_order current.window_class order)
        then true
        else rest)

-- The least priority of the choices, from the first on.
unfoldable pub best_from : List Text → Time → Priority → List Candidate → Priority
best_from order now best [] = best
best_from order now best (c ∷ cs) =
    let p = quota_priority_for c order now in
    best_from order now (if is_less (compare_quota_priority p best) then p else best) cs

-- Returns the choices of the best priority, and the remaining ones.
unfoldable pub split_by :
    List Text → Time → Priority → List Candidate → List Candidate × List Candidate
split_by order now best [] = ([], [])
split_by order now best (c ∷ cs) =
    let (group, remaining) = split_by order now best cs in
    if is_equal (compare_quota_priority (quota_priority_for c order now) best)
    then (c ∷ group, remaining)
    else (group, c ∷ remaining)

unfoldable pub next_group : List Candidate → List Text → Time → List Candidate × List Candidate
next_group [] order now = ([], [])
next_group (c ∷ cs) order now =
    split_by order now (best_from order now (quota_priority_for c order now) cs) (c ∷ cs)
