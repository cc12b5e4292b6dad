-- ===== src/Epoch/Examples/Reset.antt =====
-- A reset that the only account of an inventory shows.
use cpa_codex_quota_schedule.Epoch.Evidence.{
  same_account, weekly_window, first_weekly, window_evidence,
}
use cpa_codex_quota_schedule.Quota.Normalize.{normalize_window_set, prepared}
use cpa_codex_quota_schedule.Quota.{normalize_window_class, class_of}
use cpa_codex_quota_schedule.Common.{to_lower}
use cpa_codex_quota_schedule.Quota.Cycle.{has_placeholder_reset}
use cpa_codex_quota_schedule.Epoch.Sweep.{
  add_targets, add_target, started_sweep, fresh_sweep, probe_now,
}
use cpa_codex_quota_schedule.Common.{insert, revise, text_discrete, contains}
use cpa_codex_quota_schedule.Epoch.State.{quorum, poll_of}
use cpa_codex_quota_schedule.Epoch.Observe.{observed_target}
use cpa_codex_quota_schedule.Epoch.Rounds.{settle_sweep, sweep_counts, close_sweep}
use cpa_codex_quota_schedule.Epoch.Confirm.{
  decide_sweep, confirm, next_id, adq_epoch_id, median_reset, time_at, sort_times, reset_times,
}
use cpa_codex_quota_schedule.Common.{
  trim_space, lookup, ◌+◌, ◌*◌, true, [], ◌∷◌, some, ◌≡◌, refl, ap, sym, ◌∙◌, inl, inr, arith, text,
  minute, hour,
}
use cpa_codex_quota_schedule.Epoch.Evidence.{reset_evidence, matches_current}
use cpa_codex_quota_schedule.Epoch.State.{
  Target, empty_target, empty_sweep, World, new_state, is_reset, provider_reset, empty_poll,
}
use cpa_codex_quota_schedule.Epoch.Sweep.{begin_sweep}
use cpa_codex_quota_schedule.Epoch.Confirm.{finalize_sweep}
use cpa_codex_quota_schedule.Epoch.Observe.{
  observe_probe, observe_account, observe_target, begin_on_evidence,
}
use cpa_codex_quota_schedule.Epoch.Calls.{step, Call, report, run}
use cpa_codex_quota_schedule.Epoch.Fresh.{finalize_sweep_lem}
use cpa_codex_quota_schedule.Epoch.Backed.{first_world, IsShown, run-IsShown}
use cpa_codex_quota_schedule.Epoch.Examples.{digit, morning, spent, refilled}

abbrev shown : Target
shown = record empty_target {
  auth_id = text "a";
  auth_index = text "1";
  observed_at = morning + hour;
  evidence = true;
  evidence_reason = text "weekly_refill";
}

-- The only account has shown the reset.
abbrev shown_world : World
shown_world = record {
  epoch = record new_state {
    sweep = record empty_sweep {
      active = true;
      reason = provider_reset;
      trigger_auth_id = text "a";
      trigger_reason = text "weekly_refill";
      started_at = morning + hour;
      deadline = morning + hour + 10 * minute;
      round = 1;
      round_started_at = morning + hour;
      required = 1;
      targets = (text "a", shown) ∷ [];
    };
  };
  quotas = [];
  polls = (text "a", empty_poll) ∷ [];
}

abbrev reset_call : Call
reset_call =
    report (text "a") (spent (text "a") (text "1")) (refilled (text "a") (text "1"))
      ((text "a", text "1") ∷ []) (morning + hour)

refilled-evidence :
    reset_evidence (spent (text "a") (text "1")) (refilled (text "a") (text "1")) (morning + hour)
    ≡ some (text "weekly_refill")
unfolding observe_target lookup begin_on_evidence begin_sweep add_targets add_target insert revise
    started_sweep fresh_sweep text_discrete trim_space quorum observed_target contains poll_of
    probe_now finalize_sweep settle_sweep decide_sweep sweep_counts confirm next_id adq_epoch_id
    median_reset time_at sort_times reset_times close_sweep reset_evidence same_account
    weekly_window first_weekly normalize_window_set normalize_window_class class_of to_lower
    prepared window_evidence has_placeholder_reset
refilled-evidence = refl

shown_world-begun :
    observe_target
      (begin_on_evidence
        (first_world [] [])
        ((text "a", text "1") ∷ [])
        (text "a")
        (some (text "weekly_refill"))
        (morning + hour))
      (text "a")
      (refilled (text "a") (text "1"))
      (some (text "weekly_refill"))
    ≡ shown_world
unfolding observe_target lookup begin_on_evidence begin_sweep add_targets add_target insert revise
    started_sweep fresh_sweep text_discrete trim_space quorum observed_target contains poll_of
    probe_now finalize_sweep settle_sweep decide_sweep sweep_counts confirm next_id adq_epoch_id
    median_reset time_at sort_times reset_times close_sweep
shown_world-begun = refl

reset_call-step :
    step digit (first_world [] []) reset_call ≡ finalize_sweep digit shown_world (morning + hour)
unfolding step observe_probe trim_space matches_current observe_account lookup
reset_call-step = rw (refilled-evidence, shown_world-begun) refl

shown_world-confirm :
    is_reset (finalize_sweep digit shown_world (morning + hour)).0.epoch.reason ≡ true
unfolding finalize_sweep settle_sweep decide_sweep sweep_counts confirm next_id text_discrete
    adq_epoch_id median_reset time_at sort_times reset_times lookup close_sweep
shown_world-confirm = refl

shown_world-current :
    (finalize_sweep digit shown_world (morning + hour)).0.epoch.id
    ≡ (finalize_sweep digit shown_world (morning + hour)).0.epoch.sweep.epoch_id
shown_world-current = elim (finalize_sweep_lem digit shown_world (morning + hour)) [
  | inl k ↦ let c = shown_world-confirm in absurd (ground (arith, ap is_reset k.3, c))
  | inr k ↦ k.2 ∙ sym k.4
]

run-IsShown_example :
    IsShown (run digit (first_world [] []) (reset_call ∷ [])).0.epoch.sweep.targets
unfolding run
run-IsShown_example =
    run-IsShown digit [] [] (reset_call ∷ []) (rw reset_call-step shown_world-confirm)
      (rw reset_call-step shown_world-current)
