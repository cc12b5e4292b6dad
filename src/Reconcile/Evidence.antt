-- ===== src/Reconcile/Evidence.antt =====
-- ban_reconcile.go, with windowClassFromSeconds of runtime.go: what a snapshot says about the quota
-- cycle of a quarantine. Classes that are not recognized are empty.
use cpa_codex_quota_schedule.Common.{
  ℕ, ◌+◌, ◌-◌, ◌*◌, ◌/◌, Bool, true, false, not, ◌&&◌, ◌||◌, List, [], ◌∷◌, ◌++◌, Option, none,
  some, ltb, leb, ◌==◌, if◌then◌else◌, Text, text, is_empty, same, trim_space, to_lower, has_prefix,
  Time, Duration, is_zero, before, after, second, minute, any,
}
use cpa_codex_quota_schedule.Quota.{
  QuotaSource, QuotaWindow, QuotaSnapshot, used_percent_threshold, normalize_window_class,
}
use cpa_codex_quota_schedule.Quota.QuotaSource.{unknown, probe, header, mixed}
use cpa_codex_quota_schedule.Quota.Cycle.{placeholder_skew}
use cpa_codex_quota_schedule.Ban.Entry.{BanEntry}

-- A proof is its reason and the instant at which it was observed.
abbrev pub Proof : Type 0
Proof = Text × Time

unfoldable pub window_class_from_seconds : ℕ → Text
window_class_from_seconds n =
    if n == 0
    then []
    else (if leb n (6 * 60 * 60)
        then text "5h"
        else (if leb n (8 * 24 * 60 * 60)
            then text "weekly"
            else (if leb n (35 * 24 * 60 * 60) then text "monthly" else [])))

abbrev pub rank_of : Text → ℕ
rank_of class =
    if same class (text "5h")
    then 1
    else (if same class (text "weekly") then 2 else (if same class (text "monthly") then 3 else 0))

unfoldable pub window_class_rank : Text → ℕ
window_class_rank class = rank_of (normalize_window_class class)

unfoldable pub class_by_prefix : Text → List Text → Text
class_by_prefix window [] = []
class_by_prefix window (c ∷ cs) =
    let rest = class_by_prefix window cs in
    if has_prefix window c then normalize_window_class c else rest

unfoldable pub ban_window_class : Text → Text
ban_window_class window =
    class_by_prefix (to_lower (trim_space window))
      (text "5h" ∷ text "weekly" ∷ text "week" ∷ text "monthly" ∷ text "month" ∷ [])

-- A 5h label is believed only where it is disproved: a longer span shows a later class.
unfoldable pub effective_ban_window_class : BanEntry → Text
effective_ban_window_class e =
    let declared = ban_window_class e.window in
    let inferred = window_class_from_seconds ((e.reset_at - e.banned_at) / second) in
    if is_zero e.banned_at || is_zero e.reset_at || not (after e.reset_at e.banned_at)
    then []
    else (if same declared (text "weekly") || same declared (text "monthly")
        then declared
        else (if same declared (text "5h")
              && ltb (window_class_rank declared) (window_class_rank inferred)
            then inferred
            else []))

abbrev pub or_quarter : Duration → Duration
or_quarter stale = if stale == 0 then 15 * minute else stale

-- Observed after the quarantine began, and not long ago.
unfoldable pub observed_since : Time → Time → Duration → QuotaWindow → Bool
observed_since banned_at now stale w =
    not (is_zero w.observed_at)
    && after w.observed_at banned_at
    && not (before now w.observed_at)
    && leb (now - w.observed_at) stale

unfoldable pub is_open : Time → QuotaWindow → Bool
is_open now w =
    w.allowed
    && not w.limit_reached
    && ltb w.used_percent used_percent_threshold
    && not (is_zero w.reset_at)
    && before now w.reset_at

-- The verdict of the first window of the class, none if there is no such window.
unfoldable pub anchor_verdict :
    Text → BanEntry → Time → Duration → List QuotaWindow → Option (Option Proof)
anchor_verdict class e now stale [] = none
anchor_verdict class e now stale (w ∷ ws) =
    let rest = anchor_verdict class e now stale ws in
    if same (normalize_window_class w.class) class
    then some (
        if observed_since e.banned_at now stale w
          && is_open now w
          && after w.reset_at (e.reset_at + placeholder_skew * second)
        then some (class ++ text "_reset_anchor_advanced", w.observed_at)
        else none)
    else rest

abbrev pub is_probe : QuotaSource → Bool
is_probe probe = true
is_probe unknown = false
is_probe header = false
is_probe mixed = false

-- The row of a shorter class, told by its probe, that is observed and open.
unfoldable pub is_shorter : Text → Time → Time → Duration → QuotaWindow → Bool
is_shorter ban_class banned_at now stale w =
    let class = normalize_window_class w.class in
    not (is_empty class)
    && not (same class ban_class)
    && ltb (window_class_rank class) (window_class_rank ban_class)
    && is_probe w.source
    && not (w.window_seconds == 0)
    && same (window_class_from_seconds w.window_seconds) class
    && observed_since banned_at now stale w
    && is_open now w

-- The classes of the windows and the first observation, if every window is such a row, of its own
-- class.
unfoldable pub shorter_classes :
    Text → Time → Time → Duration → List QuotaWindow → List Text → Time → Option (List Text × Time)
shorter_classes ban_class banned_at now stale [] classes at = some (classes, at)
shorter_classes ban_class banned_at now stale (w ∷ ws) classes at =
    let class = normalize_window_class w.class in
    let rest =
      shorter_classes ban_class banned_at now stale ws (classes ++ class ∷ [])
        (if is_zero at || before w.observed_at at then w.observed_at else at) in
    if is_shorter ban_class banned_at now stale w && not (any (same class) classes)
    then rest
    else none

unfoldable pub insert_class : Text → List Text → List Text
insert_class c [] = c ∷ []
insert_class c (d ∷ ds) =
    let rest = insert_class c ds in
    if ltb (window_class_rank d) (window_class_rank c) then d ∷ rest else c ∷ d ∷ ds

-- By rank. The ranks of the classes differ.
unfoldable pub sort_classes : List Text → List Text
sort_classes [] = []
sort_classes (c ∷ cs) = insert_class c (sort_classes cs)

-- strings.Join with "+".
unfoldable pub join_classes : List Text → Text
join_classes [] = []
join_classes (c ∷ []) = c
join_classes (c ∷ d ∷ ds) = c ++ text "+" ++ join_classes (d ∷ ds)

abbrev pub replaced_by : Text → Option (List Text × Time) → Option Proof
replaced_by ban_class none = none
replaced_by ban_class (some ([], at)) = none
replaced_by ban_class (some (c ∷ cs, at)) =
    if is_zero at
    then none
    else some
        (ban_class ++ text "_window_set_replaced_by_" ++ join_classes (sort_classes (c ∷ cs)), at)

-- All windows are of shorter classes: the plan of the credential has changed.
unfoldable pub proves_replacement : QuotaSnapshot → Text → Time → Time → Duration → Option Proof
proves_replacement s ban_class banned_at now stale =
    if leb (window_class_rank ban_class) 1
    then none
    else replaced_by ban_class
        (shorter_classes ban_class banned_at now (or_quarter stale) s.windows [] 0)

abbrev pub or_replaced : Option (Option Proof) → Option Proof → Option Proof
or_replaced none replaced = replaced
or_replaced (some verdict) replaced = verdict

unfoldable pub proves_new_cycle : QuotaSnapshot → BanEntry → Time → Duration → Option Proof
proves_new_cycle s e now stale =
    let class = effective_ban_window_class e in
    if is_empty class || is_zero e.reset_at
    then none
    else or_replaced (anchor_verdict class e now (or_quarter stale) s.windows)
        (proves_replacement s class e.banned_at now stale)
