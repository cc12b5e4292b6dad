-- ===== src/Recovery/Examples.antt =====
-- The theorems on the recovery guard at concrete calls.
use cpa_codex_quota_schedule.Common.{
  ◌*◌, ◌-◌, ◌^◌, ◌<◌, min, true, false, not, List, [], ◌∷◌, none, ◌≡◌, refl, arith, Text, text,
  text_discrete, ℕ_discrete, lookup, insert, trim_space, to_lower, minute, hour, all,
}
use cpa_codex_quota_schedule.Quota.{
  QuotaSource, QuotaWindow, QuotaSnapshot, percent, quota_snapshot_fresh, window_fresh,
  normalize_window_class, class_of,
}
use cpa_codex_quota_schedule.Recovery.Retry.{recovery_retry_delay, retry_base, retry_max}
use cpa_codex_quota_schedule.Recovery.Retry.ClosedForm.{recovery_retry_delay-eq-min_pow}
use cpa_codex_quota_schedule.Recovery.Guard.{
  RecoveryEntry, RecoveryGuard, empty_entry, observe, full_window, observe_room, rebind,
  proves_recovery, proves_cycle, has_room, reserve,
}
use cpa_codex_quota_schedule.Recovery.Lifecycle.{blocked_for_pick}
use cpa_codex_quota_schedule.Recovery.Permit.{
  Call, requires, reserves, finishes, run, Held, reserve_exclusive,
}
use cpa_codex_quota_schedule.Recovery.Evidence.{reserve-eq-not-blocked, observe_ready}

recovery_retry_delay-eq-min_pow_example :
    recovery_retry_delay 3 (2 * minute) hour
    ≡ min (retry_max hour) (retry_base (2 * minute) hour * 2 ^ (3 - 1))
recovery_retry_delay-eq-min_pow_example = recovery_retry_delay-eq-min_pow 3 (2 * minute) hour

three_failures : recovery_retry_delay 3 (2 * minute) hour ≡ 8 * minute
unfolding recovery_retry_delay
three_failures = refl

abbrev alice : Text
alice = text "alice"

abbrev index : Text
index = text "7"

abbrev first : Text
first = text "r1"

abbrev second : Text
second = text "r2"

-- The request r1 has gone out on alice's credential.
abbrev probing : RecoveryEntry
probing = record empty_entry {
  auth_index = index;
  ready = true;
  owner = first;
  owner_auth_id = alice;
  reserved_at = 10;
  dispatched = true;
  generation = 4;
  owner_generation = 4;
}

abbrev guard : RecoveryGuard
guard = (alice, probing) ∷ []

guard-Held : Held guard alice first
unfolding lookup text_discrete ℕ_discrete
guard-Held = record { held = (refl, refl); is_map = (tt, tt) }

abbrev calls : List Call
calls =
    reserves alice index second 50 ∷ requires alice index 60 90 ∷ finishes second true 70 0 0 ∷ []

reserve_exclusive_example :
    reserve (run guard calls) alice index second 1_000_000_000_000 ≡ (run guard calls, false, true)
reserve_exclusive_example =
    reserve_exclusive alice first guard calls index second 1_000_000_000_000 (λ e. cc)
      (λ e. ground arith) (tt, (tt, ((λ e. ground arith), tt))) guard-Held

reserve-eq-not-blocked_example :
    (reserve guard alice index second 20).1 ≡ not (blocked_for_pick guard alice index second 20)
unfolding trim_space lookup text_discrete ℕ_discrete
reserve-eq-not-blocked_example =
    reserve-eq-not-blocked guard alice index second 20 refl refl (λ e. cc) (λ e. cc)
      (refl, λ e. refl)

-- A fresh 5h window with room, seen after the old reset.
abbrev roomy : QuotaWindow
roomy = record {
  class = text "5h";
  window_seconds = 18000;
  reset_after_seconds = 17000;
  reset_after_seconds_known = true;
  used_percent = 3 * percent;
  allowed = true;
  limit_reached = false;
  reset_at = 900;
  source = QuotaSource.probe;
  observed_at = 500;
  window_usage_credits = 0;
  window_usage_credits_known = false;
}

abbrev seen : QuotaSnapshot
seen = record {
  five_hour_limit_status = [];
  auth_id = alice;
  auth_index = index;
  windows = roomy ∷ [];
  refreshed_at = 500;
}

abbrev waiting : RecoveryEntry
waiting = record empty_entry {
  auth_index = index;
  observed_at = 100;
  reset_at = 400;
  generation = 1;
}

observe_ready_example :
    (trim_space seen.auth_id ≡ alice)
    × (waiting.dispatched ≡ false)
    × (quota_snapshot_fresh seen 600 1000 ≡ true)
    × (waiting.observed_at < seen.refreshed_at)
    × (full_window seen.windows 600 ≡ none)
    × (all (has_room 600) seen.windows ≡ true)
unfolding observe full_window observe_room rebind proves_recovery proves_cycle has_room
    quota_snapshot_fresh window_fresh normalize_window_class class_of to_lower trim_space lookup
    insert text_discrete ℕ_discrete
observe_ready_example =
    observe_ready ((alice, waiting) ∷ []) seen 600 1000 alice waiting
      (record waiting { ready = true }) refl refl refl refl
