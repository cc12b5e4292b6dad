-- ===== src/Quota/Cycle.antt =====
-- warmup.go: has the cycle of a quota window started, or is its reset a placeholder? Usage credits
-- count in billionths, as percentages do. An instant less a duration is compared by adding.
use cpa_codex_quota_schedule.Common.{
  ℕ, ◌+◌, ◌-◌, ◌*◌, Bool, true, false, not, ◌&&◌, ◌||◌, ltb, leb, ◌==◌, if◌then◌else◌, Time,
  Duration, is_zero, before, second,
}
use cpa_codex_quota_schedule.Quota.{QuotaWindow}

abbrev pub minimum_available : ℕ
minimum_available = 1000

abbrev pub minimum_usage_credits : ℕ
minimum_usage_credits = 1000

-- warmupResetPlaceholderSkew, in seconds.
abbrev pub placeholder_skew : ℕ
placeholder_skew = 3

-- The absolute difference of two instants.
abbrev pub apart : Time → Time → Duration
apart a b = if before a b then b - a else a - b

unfoldable pub uses_credits : QuotaWindow → Bool
uses_credits w = w.window_usage_credits_known && ltb minimum_usage_credits w.window_usage_credits

unfoldable pub near_expected : Time → QuotaWindow → Bool
near_expected refreshed w =
    let observed = if is_zero w.observed_at then refreshed else w.observed_at in
    not (is_zero observed)
    && leb (apart w.reset_at (observed + w.window_seconds * second)) (placeholder_skew * second)

unfoldable pub has_placeholder_reset : QuotaWindow → Time → Time → Bool
has_placeholder_reset w refreshed now =
    if is_zero w.reset_at
      || not (before now w.reset_at)
      || w.window_seconds == 0
      || ltb minimum_available w.used_percent
      || uses_credits w
    then false
    else (if w.reset_after_seconds_known
        then leb w.window_seconds (w.reset_after_seconds + placeholder_skew)
        else near_expected refreshed w)

unfoldable pub cycle_started : QuotaWindow → Time → Time → Bool
cycle_started w refreshed now =
    if ltb minimum_available w.used_percent || uses_credits w
    then true
    else (if is_zero w.reset_at || not (before now w.reset_at)
        then false
        else not (has_placeholder_reset w refreshed now))
