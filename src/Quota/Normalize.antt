-- ===== src/Quota/Normalize.antt =====
-- quota_window_normalize.go, with mergeQuotaSource of runtime.go: one row for each recognized class of
-- quota windows. The source keeps the index of the row of each class in a map; that row is the only
-- one of the output whose class is spelled so, and is found by its class here.
use cpa_codex_quota_schedule.Common.{
  ℕ, ◌-◌, ◌*◌, Bool, true, false, not, ◌&&◌, ◌||◌, List, [], ◌∷◌, ◌++◌, map, ltb, leb, ◌==◌,
  if◌then◌else◌, is_empty, same, Time, Duration, is_zero, before, after, minute, length,
}
use cpa_codex_quota_schedule.Quota.{
  QuotaSource, QuotaWindow, used_percent_threshold, normalize_window_class,
}
use cpa_codex_quota_schedule.Quota.QuotaSource.{unknown, probe, header, mixed}
use cpa_codex_quota_schedule.Quota.Cycle.{apart}

unfoldable pub hard_restriction : QuotaWindow → Bool
hard_restriction w = not w.allowed || w.limit_reached || leb used_percent_threshold w.used_percent

abbrev pub source_priority : QuotaSource → ℕ
source_priority mixed = 3
source_priority probe = 2
source_priority header = 1
source_priority unknown = 0

abbrev pub same_bool : Bool → Bool → Bool
same_bool true b = b
same_bool false b = not b

abbrev pub observed_or : Time → QuotaWindow → Time
observed_or fallback w = if is_zero w.observed_at then fallback else w.observed_at

-- Is the candidate to replace the current row? Two percentages that are no more than 10^-9 apart
-- count as equal.
unfoldable pub window_preferred : QuotaWindow → QuotaWindow → Time → Bool
window_preferred c d fallback =
    if not (observed_or fallback c == observed_or fallback d)
    then after (observed_or fallback c) (observed_or fallback d)
    else (if not (same_bool (hard_restriction c) (hard_restriction d))
        then hard_restriction c
        else (if hard_restriction c && ltb 1 (apart c.used_percent d.used_percent)
            then ltb d.used_percent c.used_percent
            else (if not (source_priority c.source == source_priority d.source)
                then ltb (source_priority d.source) (source_priority c.source)
                else (if not (same_bool c.window_usage_credits_known d.window_usage_credits_known)
                    then c.window_usage_credits_known
                    else (if not (c.window_seconds == d.window_seconds)
                        then ltb d.window_seconds c.window_seconds
                        else (if not (c.reset_at == d.reset_at)
                            then after c.reset_at d.reset_at
                            else false))))))

unfoldable pub merge_quota_source : QuotaSource → QuotaSource → QuotaSource
merge_quota_source unknown incoming = incoming
merge_quota_source probe probe = probe
merge_quota_source probe unknown = probe
merge_quota_source probe header = mixed
merge_quota_source probe mixed = mixed
merge_quota_source header header = header
merge_quota_source header unknown = header
merge_quota_source header probe = mixed
merge_quota_source header mixed = mixed
merge_quota_source mixed incoming = mixed

unfoldable pub keep_seconds : QuotaWindow → QuotaWindow → QuotaWindow
keep_seconds winner older =
    if winner.window_seconds == 0 && ltb 0 older.window_seconds
    then record winner { window_seconds = older.window_seconds }
    else winner

unfoldable pub keep_reset_after : QuotaWindow → QuotaWindow → QuotaWindow
keep_reset_after winner older =
    if not winner.reset_after_seconds_known && older.reset_after_seconds_known
    then record winner {
      reset_after_seconds = older.reset_after_seconds;
      reset_after_seconds_known = true;
    }
    else winner

unfoldable pub keep_credits : QuotaWindow → QuotaWindow → QuotaWindow
keep_credits winner older =
    if not winner.window_usage_credits_known && older.window_usage_credits_known
    then record winner {
      window_usage_credits = older.window_usage_credits;
      window_usage_credits_known = true;
      source = merge_quota_source winner.source older.source;
    }
    else winner

abbrev pub same_cycle : QuotaWindow → QuotaWindow → Bool
same_cycle winner older =
    is_zero winner.reset_at
    || is_zero older.reset_at
    || leb (apart winner.reset_at older.reset_at) (2 * minute)

abbrev pub metadata_fresh : QuotaWindow → Time → Duration → Bool
metadata_fresh older now stale =
    not (before now (observed_or now older)) && leb (now - observed_or now older) stale

unfoldable pub retain_metadata : QuotaWindow → QuotaWindow → Time → Duration → QuotaWindow
retain_metadata winner older now stale =
    let w = keep_seconds winner older in
    if same_cycle winner older && metadata_fresh older now stale
    then keep_credits (keep_reset_after w older) older
    else w

-- What becomes of two rows of one class.
unfoldable pub combine : Time → Time → Duration → QuotaWindow → QuotaWindow → QuotaWindow
combine fallback now stale candidate current =
    if window_preferred candidate current fallback
    then retain_metadata candidate current now stale
    else retain_metadata current candidate now stale

unfoldable pub place : Time → Time → Duration → QuotaWindow → List QuotaWindow → List QuotaWindow
place fallback now stale w [] = w ∷ []
place fallback now stale w (v ∷ out) =
    let rest = place fallback now stale w out in
    if same v.class w.class then combine fallback now stale w v ∷ out else v ∷ rest

-- The row with its class normalized, if it is recognized, and with a time of observation.
unfoldable pub prepared : Time → QuotaWindow → QuotaWindow
prepared fallback w =
    let class = normalize_window_class w.class in
    record w {
      class = if is_empty class then w.class else class;
      observed_at = observed_or fallback w;
    }

unfoldable pub place_row :
    Time → Time → Duration → QuotaWindow → List QuotaWindow → List QuotaWindow
place_row fallback now stale w out =
    if is_empty (normalize_window_class w.class)
    then out ++ prepared fallback w ∷ []
    else place fallback now stale (prepared fallback w) out

unfoldable pub place_rows :
    Time → Time → Duration → List QuotaWindow → List QuotaWindow → List QuotaWindow
place_rows fallback now stale [] out = out
place_rows fallback now stale (w ∷ ws) out =
    place_rows fallback now stale ws (place_row fallback now stale w out)

unfoldable pub normalize_window_set : List QuotaWindow → Time → Time → Duration → List QuotaWindow
normalize_window_set ws fallback now stale =
    if ltb (length ws) 2
    then map (prepared fallback) ws
    else place_rows fallback now (if stale == 0 then 15 * minute else stale) ws []
