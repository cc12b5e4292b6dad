-- ===== src/Quota/Examples.antt =====
-- The theorems on quota priorities at concrete choices.
use cpa_codex_quota_schedule.Common.{
  true, false, List, [], ◌∷◌, ◌++◌, ◌≡◌, ◌≢◌, refl, Text, text, Time, text_discrete, ℕ_discrete,
  trim_space, to_lower,
}
use mathlib.Core.List.{Perm, Permᴰ}
use cpa_codex_quota_schedule.Quota.{QuotaSource, QuotaWindow, normalize_window_class, class_of}
use cpa_codex_quota_schedule.Quota.Cycle.{
  has_placeholder_reset, cycle_started, uses_credits, near_expected,
}
use cpa_codex_quota_schedule.Quota.Priority.{
  Candidate, Priority, compare_quota_priority, quota_priority_for, next_group, best_from, split_by,
  add_window, add_windows, window_rank_in_order, rank_from,
}
use cpa_codex_quota_schedule.Quota.Groups.{Leads, next_group_lem}
use cpa_codex_quota_schedule.Quota.Windows.{quota_priority_for-perm}
use cpa_codex_quota_schedule.Quota.Normalize.{
  hard_restriction, window_preferred, keep_seconds, keep_reset_after, keep_credits, retain_metadata,
  combine, place, prepared, place_row, place_rows, normalize_window_set,
}
use cpa_codex_quota_schedule.Quota.Rows.{IsRows, normalize-IsRows, normalize_idempotent}
use cpa_codex_quota_schedule.Quota.Restricted.{has_hard_row, normalize-hard}
use cpa_codex_quota_schedule.Common.{inr, length}

abbrev order : List Text
order = text "5h" ∷ text "weekly" ∷ []

abbrev five_hour : Time → QuotaWindow
five_hour reset = record {
  class = text "5h";
  window_seconds = 18000;
  reset_after_seconds = 0;
  reset_after_seconds_known = false;
  used_percent = 40_000_000_000;
  allowed = true;
  limit_reached = false;
  reset_at = reset;
  source = QuotaSource.probe;
  observed_at = 5;
  window_usage_credits = 0;
  window_usage_credits_known = false;
}

abbrev weekly : QuotaWindow
weekly = record (five_hour 900) { class = text "weekly" }

abbrev choice : List QuotaWindow → Candidate
choice windows = record {
  snapshot = record {
    five_hour_limit_status = text "reported";
    auth_id = text "alpha";
    auth_index = text "1";
    windows = windows;
    refreshed_at = 5;
  };
  quota_known = true;
  eligible = true;
  window_class = text "5h";
  five_hour_known = true;
  weekly_protected = false;
}

abbrev early : Candidate
early = choice (five_hour 100 ∷ weekly ∷ [])

abbrev late : Candidate
late = choice (five_hour 200 ∷ [])

abbrev priority : Time → Priority
priority reset = record {
  tier = 0;
  window = text "5h";
  window_rank = 0;
  deadline_kind = 0;
  reset_at = reset;
  weekly_protected = false;
}

early-priority : quota_priority_for early order 10 ≡ priority 100
unfolding quota_priority_for window_rank_in_order rank_from add_windows add_window
    has_placeholder_reset cycle_started uses_credits near_expected normalize_window_class class_of
    trim_space to_lower text_discrete ℕ_discrete
early-priority = refl

next_group-early : next_group (late ∷ early ∷ early ∷ []) order 10 ≡ (early ∷ early ∷ [], late ∷ [])
unfolding next_group best_from split_by compare_quota_priority quota_priority_for
    window_rank_in_order rank_from add_windows add_window has_placeholder_reset cycle_started
    uses_credits near_expected normalize_window_class class_of trim_space to_lower text_discrete
    ℕ_discrete
next_group-early = refl

next_group_example :
    let g = next_group (late ∷ early ∷ early ∷ []) order 10 in
    (g.0 ≢ []) × Perm (g.0 ++ g.1) (late ∷ early ∷ early ∷ []) × Leads order 10 g.0 g.0 g.1
next_group_example = next_group_lem late (early ∷ early ∷ []) order 10

quota_priority_for-perm_example :
    quota_priority_for (choice (weekly ∷ five_hour 100 ∷ [])) order 10
    ≡ quota_priority_for early order 10
quota_priority_for-perm_example =
    quota_priority_for-perm early order 10 (weekly ∷ five_hour 100 ∷ []) (Permᴰ.swap refl refl)

abbrev exhausted_row : QuotaWindow
exhausted_row = record (five_hour 100) { class = text "primary"; used_percent = 100_000_000_000 }

-- The same class under two names, one row exhausted.
abbrev duplicates : List QuotaWindow
duplicates = five_hour 100 ∷ weekly ∷ exhausted_row ∷ []

normalize-hard_example :
    has_hard_row (text "5h") (normalize_window_set duplicates 0 10 900)
    ≡ has_hard_row (text "5h") duplicates
normalize-hard_example =
    normalize-hard duplicates 0 10 900 (text "5h") 5 (inr refl, (inr refl, (inr refl, tt)))

normalize-IsRows_example : IsRows (normalize_window_set duplicates 0 10 900)
normalize-IsRows_example = normalize-IsRows duplicates 0 10 900

normalize_idempotent_example :
    let out = normalize_window_set duplicates 0 10 900 in normalize_window_set out 0 10 900 ≡ out
normalize_idempotent_example = normalize_idempotent duplicates 0 10 900

normalize-duplicates : length (normalize_window_set duplicates 0 10 900) ≡ 2
unfolding normalize_window_set place_rows place_row place prepared combine window_preferred
    hard_restriction retain_metadata keep_seconds keep_reset_after keep_credits
    normalize_window_class class_of trim_space to_lower text_discrete ℕ_discrete
normalize-duplicates = refl
