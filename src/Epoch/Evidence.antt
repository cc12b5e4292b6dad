-- ===== src/Epoch/Evidence.antt =====
-- quota_epoch.go: what two snapshots of an account say about a reset of its weekly quota.
use cpa_codex_quota_schedule.Common.{
  ◌+◌, ◌-◌, ◌*◌, Bool, false, not, ◌&&◌, ◌||◌, List, [], ◌∷◌, Option, none, some, leb,
  if◌then◌else◌, Text, text, is_empty, same, trim_space, Time, is_zero, before, after, minute,
}
use cpa_codex_quota_schedule.Quota.{QuotaWindow, QuotaSnapshot, percent, normalize_window_class}
use cpa_codex_quota_schedule.Quota.Cycle.{apart, has_placeholder_reset}
use cpa_codex_quota_schedule.Quota.Normalize.{normalize_window_set, observed_or}
use cpa_codex_quota_schedule.Epoch.State.{EpochState, reset_catchup_age, reset_anchor_skew}

unfoldable pub first_weekly : List QuotaWindow → Option QuotaWindow
first_weekly [] = none
first_weekly (w ∷ ws) =
    let rest = first_weekly ws in
    if same (normalize_window_class w.class) (text "weekly") then some w else rest

unfoldable pub weekly_window : QuotaSnapshot → Option QuotaWindow
weekly_window s =
    first_weekly (normalize_window_set s.windows s.refreshed_at s.refreshed_at (15 * minute))

-- Are the snapshots of one account, under one index where both have one?
unfoldable pub same_account : QuotaSnapshot → QuotaSnapshot → Bool
same_account p c =
    not (is_empty (trim_space p.auth_id))
    && not (is_empty (trim_space c.auth_id))
    && same (trim_space p.auth_id) (trim_space c.auth_id)
    && (is_empty (trim_space p.auth_index)
        || is_empty (trim_space c.auth_index)
        || same (trim_space p.auth_index) (trim_space c.auth_index))

abbrev pub has_refilled : QuotaWindow → QuotaWindow → Bool
has_refilled p c = leb (c.used_percent + 10 * percent) p.used_percent

-- Two weekly windows, observed at the given instants.
unfoldable pub window_evidence :
    QuotaSnapshot → QuotaSnapshot → QuotaWindow → QuotaWindow → Time → Option Text
window_evidence p c v w now =
    let previous_at = observed_or p.refreshed_at v in
    let current_at = observed_or c.refreshed_at w in
    let was_placeholder = has_placeholder_reset v p.refreshed_at previous_at in
    let is_placeholder = has_placeholder_reset w c.refreshed_at current_at in
    let anchor_advanced =
      not (is_zero v.reset_at)
      && not (is_zero w.reset_at)
      && not was_placeholder
      && after w.reset_at (v.reset_at + 2 * minute) in
    let expired_rolled =
      not (is_zero v.reset_at)
      && not (after v.reset_at now)
      && not was_placeholder
      && after w.reset_at now in
    if is_zero current_at || (not (is_zero previous_at) && not (after current_at previous_at))
    then none
    else (if was_placeholder && is_placeholder && not (has_refilled v w)
        then none
        else (if has_refilled v w && (is_zero w.reset_at || after w.reset_at now)
            then some (text "weekly_refill")
            else (if (anchor_advanced || expired_rolled)
                  && leb w.used_percent (v.used_percent + 2 * percent)
                then some (text "weekly_reset_anchor")
                else none)))

abbrev pub windows_evidence :
    QuotaSnapshot → QuotaSnapshot → Time → Option QuotaWindow → Option QuotaWindow → Option Text
windows_evidence p c now none w = none
windows_evidence p c now (some v) none = none
windows_evidence p c now (some v) (some w) = window_evidence p c v w now

unfoldable pub reset_evidence : QuotaSnapshot → QuotaSnapshot → Time → Option Text
reset_evidence p c now =
    if same_account p c then windows_evidence p c now (weekly_window p) (weekly_window c) else none

abbrev pub is_near_reset : Time → Option QuotaWindow → Bool
is_near_reset reset none = false
is_near_reset reset (some w) =
    not (is_zero w.reset_at) && leb (apart w.reset_at reset) reset_anchor_skew

-- Is the reset that of the epoch that was confirmed a short time ago?
unfoldable pub matches_current : EpochState → QuotaSnapshot → Time → Bool
matches_current e c now =
    not (is_empty e.id)
    && not (is_zero e.confirmed_at)
    && not (is_zero e.reset_at)
    && not (before now e.confirmed_at)
    && leb (now - e.confirmed_at) reset_catchup_age
    && is_near_reset e.reset_at (weekly_window c)

abbrev pub new_epoch_evidence : EpochState → QuotaSnapshot → QuotaSnapshot → Time → Option Text
new_epoch_evidence e p c now = if matches_current e c now then none else reset_evidence p c now
