-- ===== src/Quota.antt =====
-- runtime.go, config.go, warmup.go: a quota snapshot, its windows, and the tests on them that
-- every selector shares. Percentages count billionths of one percent; they are not negative.
pub mod Cycle
pub mod Activation
pub mod Priority
pub mod Order
pub mod Groups
pub mod Windows
pub mod Normalize
pub mod Merging
pub mod Rows
pub mod Restricted
mod Examples
use cpa_codex_quota_schedule.Common.{
  ℕ, ◌-◌, ◌*◌, Bool, false, not, ◌&&◌, ◌||◌, List, [], ◌∷◌, ltb, leb, if◌then◌else◌, Text, text,
  same, trim_space, to_lower, Time, Duration, is_zero, before, all,
}

pub data QuotaSource : Type 0 where
  unknown probe header mixed : QuotaSource

pub record QuotaWindow : Type 0 where
  pub class : Text
  pub window_seconds : ℕ
  pub reset_after_seconds : ℕ
  pub reset_after_seconds_known : Bool
  pub used_percent : ℕ
  pub allowed : Bool
  pub limit_reached : Bool
  pub reset_at : Time
  pub source : QuotaSource
  pub observed_at : Time
  pub window_usage_credits : ℕ
  pub window_usage_credits_known : Bool

pub record QuotaSnapshot : Type 0 where
  pub five_hour_limit_status : Text
  pub auth_id : Text
  pub auth_index : Text
  pub windows : List QuotaWindow
  pub refreshed_at : Time

-- One percent.
abbrev pub percent : ℕ
percent = 1_000_000_000

abbrev pub used_percent_threshold : ℕ
used_percent_threshold = 100 * percent

abbrev pub is_one_of : Text → List Text → Bool
is_one_of t [] = false
is_one_of t (u ∷ us) = same t u || is_one_of t us

unfoldable pub class_of : Text → Text
class_of t =
    if is_one_of t
      (text "5h" ∷ text "5-hour" ∷ text "five-hour" ∷ text "five_hour" ∷ text "primary" ∷ [])
    then text "5h"
    else (if is_one_of t
          (text "week" ∷ text "weekly" ∷ text "7d" ∷ text "7-day" ∷ text "secondary" ∷ [])
        then text "weekly"
        else (if is_one_of t (text "month" ∷ text "monthly" ∷ text "30d" ∷ text "30-day" ∷ [])
            then text "monthly"
            else []))

unfoldable pub normalize_window_class : Text → Text
normalize_window_class raw = class_of (to_lower (trim_space raw))

-- A window that is still running needs its own observation in time.
unfoldable pub window_fresh : QuotaSnapshot → Time → Duration → QuotaWindow → Bool
window_fresh s now stale w =
    (not (is_zero w.reset_at) && leb w.reset_at now)
    || (let observed = if is_zero w.observed_at then s.refreshed_at else w.observed_at in
        not (is_zero observed || before now observed || ltb stale (now - observed)))

unfoldable pub quota_snapshot_fresh : QuotaSnapshot → Time → Duration → Bool
quota_snapshot_fresh s now stale =
    not (is_zero s.refreshed_at || before now s.refreshed_at || ltb stale (now - s.refreshed_at))
    && all (window_fresh s now stale) s.windows
