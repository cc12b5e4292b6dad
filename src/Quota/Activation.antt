-- ===== src/Quota/Activation.antt =====
-- warmup.go: which quota window of a snapshot a warmup request would start.
use cpa_codex_quota_schedule.Common.{
  ℕ, Bool, true, false, not, ◌&&◌, ◌||◌, List, [], ◌∷◌, Option, none, some, ltb, leb, if◌then◌else◌,
  Text, text, is_empty, same, Time, is_zero, before,
}
use cpa_codex_quota_schedule.Quota.{
  QuotaWindow, QuotaSnapshot, used_percent_threshold, normalize_window_class,
}
use cpa_codex_quota_schedule.Quota.Cycle.{minimum_available, uses_credits, has_placeholder_reset}

unfoldable pub warmup_window_rank : Text → ℕ
warmup_window_rank class =
    if same class (text "monthly")
    then 0
    else (if same class (text "weekly") then 1 else (if same class (text "5h") then 2 else 10))

unfoldable pub needs_activation : QuotaWindow → Time → Time → Bool
needs_activation w refreshed now =
    if ltb minimum_available w.used_percent || w.limit_reached || not w.allowed || uses_credits w
    then false
    else (is_zero w.reset_at
        || not (before now w.reset_at)
        || has_placeholder_reset w refreshed now)

abbrev pub is_exhausted : QuotaWindow → Bool
is_exhausted w = w.limit_reached || not w.allowed || leb used_percent_threshold w.used_percent

abbrev pub ranks_before : Text → Option QuotaWindow → Bool
ranks_before class none = true
ranks_before class (some v) = ltb (warmup_window_rank class) (warmup_window_rank v.class)

-- The window that the loop has selected after this one.
unfoldable pub select_window : Time → Time → QuotaWindow → Option QuotaWindow → Option QuotaWindow
select_window refreshed now w selected =
    let class = normalize_window_class w.class in
    if ltb minimum_available w.used_percent
      || uses_credits w
      || not (needs_activation w refreshed now)
      || not (ranks_before class selected)
    then selected
    else some (record w { class = class })

-- An exhausted window of a recognized class stops the search.
unfoldable pub select_windows :
    Time → Time → List QuotaWindow → Option QuotaWindow → Option QuotaWindow
select_windows refreshed now [] selected = selected
select_windows refreshed now (w ∷ ws) selected =
    let is_known = not (is_empty (normalize_window_class w.class)) in
    let rest =
      select_windows refreshed now ws
        (if is_known then select_window refreshed now w selected else selected) in
    if is_known && is_exhausted w then none else rest

unfoldable pub unstarted_window : QuotaSnapshot → Time → Option QuotaWindow
unstarted_window s now = select_windows s.refreshed_at now s.windows none

abbrev pub is_some : Option QuotaWindow → Bool
is_some none = false
is_some (some w) = true

-- Would a warmup start a window of the snapshot?
unfoldable pub needs_warmup : QuotaSnapshot → Time → Bool
needs_warmup s now = is_some (unstarted_window s now)
