-- ===== src/Quota/Merging.antt =====
-- quota_window_normalize.go: what preparing a row and merging two rows leave as it is.
use cpa_codex_quota_schedule.Common.{
  Bool, true, false, [], if◌then◌else◌, Text, text, text_discrete, ℕ_discrete, trim_space, to_lower,
  Time, Duration, ◌≡◌, ◌⊎◌, refl, arith,
}
use cpa_codex_quota_schedule.Quota.{QuotaWindow, normalize_window_class, class_of}
use cpa_codex_quota_schedule.Quota.Normalize.{
  observed_or, keep_seconds, keep_reset_after, keep_credits, retain_metadata, combine, prepared,
}

none_fixed : normalize_window_class [] ≡ []
unfolding normalize_window_class class_of trim_space to_lower text_discrete ℕ_discrete
none_fixed = refl

five_hour_fixed : normalize_window_class (text "5h") ≡ text "5h"
unfolding normalize_window_class class_of trim_space to_lower text_discrete ℕ_discrete
five_hour_fixed = refl

weekly_fixed : normalize_window_class (text "weekly") ≡ text "weekly"
unfolding normalize_window_class class_of trim_space to_lower text_discrete ℕ_discrete
weekly_fixed = refl

monthly_fixed : normalize_window_class (text "monthly") ≡ text "monthly"
unfolding normalize_window_class class_of trim_space to_lower text_discrete ℕ_discrete
monthly_fixed = refl

pick_fixed :
    (b c d : Bool)
    → let r =
        if b
        then text "5h"
        else (if c then text "weekly" else (if d then text "monthly" else [])) in
      normalize_window_class r ≡ r
pick_fixed true c d = five_hour_fixed
pick_fixed false true d = weekly_fixed
pick_fixed false false true = monthly_fixed
pick_fixed false false false = none_fixed

class_of_fixed : (t : Text) → normalize_window_class (class_of t) ≡ class_of t
unfolding class_of
class_of_fixed t = pick_fixed _ _ _

pub class_fixed :
    (t : Text) → normalize_window_class (normalize_window_class t) ≡ normalize_window_class t
unfolding normalize_window_class
class_fixed t = class_of_fixed (to_lower (trim_space t))

-- A row stays the same under another preparation.
pub record IsPrepared (fallback : Time) (w : QuotaWindow) : Type 0 where
  pub class_kept :
      (normalize_window_class w.class ≡ []) ⊎ (normalize_window_class w.class ≡ w.class)
  pub time_kept : observed_or fallback w ≡ w.observed_at

pub prepared-IsPrepared :
    (fallback : Time) (w : QuotaWindow) → IsPrepared fallback (prepared fallback w)
unfolding prepared
prepared-IsPrepared fallback w = record {
  class_kept = ground (arith, class_fixed w.class);
  time_kept = ground arith;
}

pub prepared_again :
    (fallback : Time) (w : QuotaWindow) → IsPrepared fallback w → prepared fallback w ≡ w
unfolding prepared
prepared_again fallback w h = ground (arith, h.class_kept, h.time_kept)

-- What merging the metadata of another row leaves as it is.
pub retain-same :
    (w v : QuotaWindow) (now : Time) (stale : Duration)
    → let r = retain_metadata w v now stale in
      (r.class ≡ w.class)
      × (r.observed_at ≡ w.observed_at)
      × (r.allowed ≡ w.allowed)
      × (r.limit_reached ≡ w.limit_reached)
      × (r.used_percent ≡ w.used_percent)
unfolding retain_metadata keep_seconds keep_reset_after keep_credits
retain-same w v now stale = ground arith

pub combine-class :
    (fallback now : Time) (stale : Duration) (w v : QuotaWindow)
    → v.class ≡ w.class
    → (combine fallback now stale w v).class ≡ w.class
unfolding combine
combine-class fallback now stale w v e =
    ground (arith, retain-same w v now stale, retain-same v w now stale)

pub combine-IsPrepared :
    (fallback now : Time) (stale : Duration) (w v : QuotaWindow)
    → IsPrepared fallback w
    → IsPrepared fallback v
    → IsPrepared fallback (combine fallback now stale w v)
unfolding combine
combine-IsPrepared fallback now stale w v h k = record {
  class_kept =
      ground
        (arith, retain-same w v now stale, retain-same v w now stale, h.class_kept, k.class_kept);
  time_kept =
      ground
        (arith, retain-same w v now stale, retain-same v w now stale, h.time_kept, k.time_kept);
}
