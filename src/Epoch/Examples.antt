-- ===== src/Epoch/Examples.antt =====
-- The theorems on quota epochs at concrete states.
mod Reset
mod Warmups
use cpa_codex_quota_schedule.Runtime.Identity.{scan_ids}
use cpa_codex_quota_schedule.Epoch.Evidence.{
  same_account, weekly_window, first_weekly, window_evidence,
}
use cpa_codex_quota_schedule.Quota.Normalize.{normalize_window_set, prepared}
use cpa_codex_quota_schedule.Quota.{normalize_window_class, class_of}
use cpa_codex_quota_schedule.Common.{to_lower}
use cpa_codex_quota_schedule.Quota.Cycle.{has_placeholder_reset}
use cpa_codex_quota_schedule.Epoch.Sweep.{
  add_targets, add_target, started_sweep, fresh_sweep, probe_now,
}
use cpa_codex_quota_schedule.Common.{insert, revise, text_discrete, contains}
use cpa_codex_quota_schedule.Epoch.State.{quorum, poll_of}
use cpa_codex_quota_schedule.Epoch.Observe.{observed_target}
use cpa_codex_quota_schedule.Epoch.Rounds.{settle_sweep, sweep_counts, close_sweep}
use cpa_codex_quota_schedule.Epoch.Confirm.{
  decide_sweep, confirm, next_id, adq_epoch_id, median_reset, time_at, sort_times, reset_times,
}
use cpa_codex_quota_schedule.Common.{
  trim_space, lookup, ℕ, ◌+◌, ◌*◌, ◌%◌, ◌≤◌, true, false, List, [], ◌∷◌, none, some, ◌≡◌, refl, All,
  ap, sym, ◌∙◌, inl, inr, arith, Text, text, Dict, Time, minute, second, hour, length,
}
use cpa_codex_quota_schedule.Quota.{QuotaSource, QuotaWindow, QuotaSnapshot, percent}
use cpa_codex_quota_schedule.Epoch.Evidence.{reset_evidence, matches_current}
use cpa_codex_quota_schedule.Runtime.Identity.{canonical_auth_id}
use cpa_codex_quota_schedule.Epoch.Rounds.{Transition}
use cpa_codex_quota_schedule.Epoch.State.{
  Target, empty_target, empty_sweep, Account, empty_account, pending, World, new_state, is_reset,
  provider_reset, empty_poll,
}
use cpa_codex_quota_schedule.Epoch.Sweep.{begin_sweep}
use cpa_codex_quota_schedule.Epoch.Confirm.{finalize_sweep}
use cpa_codex_quota_schedule.Epoch.Observe.{
  observe_probe, observe_account, observe_target, begin_on_evidence, record_warmup_outcome,
  warmup_allowance,
}
use cpa_codex_quota_schedule.Epoch.Calls.{
  step, Call, prepare, probe, report, fail, use_account, run,
}
use cpa_codex_quota_schedule.Epoch.Fresh.{Finalized, finalize_sweep_lem}
use cpa_codex_quota_schedule.Epoch.Bounded.{run_sweep, begin_sweep-terminates}
use cpa_codex_quota_schedule.Epoch.Backed.{first_world, IsShown, run-IsShown}
use cpa_codex_quota_schedule.Epoch.Warmed.{Keeps, warmup_allowance-once}

-- The last digit of a number.
abbrev pub digit : ℕ → Text
digit n = (48 + n % 10) ∷ []

abbrev pub morning : Time
morning = 1_000_000 * hour

abbrev pub inventory : Dict Text
inventory = (text "a", text "1") ∷ (text "b", text "2") ∷ []

abbrev pub weekly : Time → ℕ → Time → QuotaWindow
weekly observed used reset = record {
  class = text "weekly";
  window_seconds = 604800;
  reset_after_seconds = 0;
  reset_after_seconds_known = false;
  used_percent = used * percent;
  allowed = true;
  limit_reached = false;
  reset_at = reset;
  source = QuotaSource.probe;
  observed_at = observed;
  window_usage_credits = 0;
  window_usage_credits_known = false;
}

abbrev pub snapshot : Text → Text → Time → ℕ → Time → QuotaSnapshot
snapshot id index observed used reset = record {
  five_hour_limit_status = text "reported";
  auth_id = id;
  auth_index = index;
  windows = weekly observed used reset ∷ [];
  refreshed_at = observed;
}

-- The weekly quota of an account, before and after a reset.
abbrev pub spent : Text → Text → QuotaSnapshot
spent id index = snapshot id index morning 80 (morning + 10 * hour)

abbrev pub refilled : Text → Text → QuotaSnapshot
refilled id index = snapshot id index (morning + hour) 1 (morning + 160 * hour)

-- A sweep of which the first round is over.
abbrev sweep_calls : List Call
sweep_calls =
    probe (text "a") (morning + second)
    ∷ probe (text "b") (morning + 2 * second)
    ∷ fail (text "a") (text "timeout") (morning + 3 * second)
    ∷ prepare inventory (morning + 4 * second)
    ∷ probe (text "a") (morning + minute)
    ∷ []

begin_sweep-terminates_example :
    ((run_sweep digit
        (begin_sweep (first_world [] []) inventory provider_reset (text "a") [] morning).0
        sweep_calls).1
      ≤ 4 * length inventory)
    × ((finalize_sweep digit
          (run_sweep digit
            (begin_sweep (first_world [] []) inventory provider_reset (text "a") [] morning).0
            sweep_calls).0
          (morning + 10 * minute)).0.epoch.sweep.active
        ≡ false)
begin_sweep-terminates_example =
    begin_sweep-terminates digit (first_world [] []) inventory (text "a") [] morning
      (morning + 10 * minute) sweep_calls refl (omega arith)
      (omega arith, (omega arith, (tt, (refl, (omega arith, tt))))) (omega arith)

finalize_sweep_lem_example :
    Finalized
      (begin_sweep (first_world [] []) inventory provider_reset (text "a") [] morning).0
      (finalize_sweep digit
        (begin_sweep (first_world [] []) inventory provider_reset (text "a") [] morning).0
        (morning + hour)).0
      (finalize_sweep digit
        (begin_sweep (first_world [] []) inventory provider_reset (text "a") [] morning).0
        (morning + hour)).1
finalize_sweep_lem_example =
    finalize_sweep_lem digit
      (begin_sweep (first_world [] []) inventory provider_reset (text "a") [] morning).0
      (morning + hour)
