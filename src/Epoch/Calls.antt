-- ===== src/Epoch/Calls.antt =====
-- quota_epoch.go: the calls that the runtime makes of an epoch, in any order. Between two of them it
-- may store other quotas and polls.
use cpa_codex_quota_schedule.Common.{ℕ, Bool, List, [], ◌∷◌, Text, Dict, Time}
use cpa_codex_quota_schedule.Quota.{QuotaSnapshot}
use cpa_codex_quota_schedule.Epoch.State.{Poll, World}
use cpa_codex_quota_schedule.Epoch.Sweep.{prepare_inventory, probe_reason, record_probe_attempt}
use cpa_codex_quota_schedule.Epoch.Rounds.{Transition, no_transition}
use cpa_codex_quota_schedule.Epoch.Observe.{
  observe_probe, observe_error, begin_reset_from_headers, mark_natural, record_warmup_outcome,
}

pub data Call : Type 0 where
  prepare : Dict Text → Time → Call
  probe : Text → Time → Call
  report : Text → QuotaSnapshot → QuotaSnapshot → Dict Text → Time → Call
  fail : Text → Text → Time → Call
  headers : Text → QuotaSnapshot → QuotaSnapshot → Time → Call
  use_account : Dict Text → Text → Text → Time → Call
  warm : Dict Text → Text → Text → Bool → Bool → Text → Time → Call
  store : Dict QuotaSnapshot → Dict Poll → Call

-- A probe of the account is sent if the epoch asks for one.
unfoldable pub send_probe : World → Text → Time → World
send_probe w raw now = record w {
  epoch = record_probe_attempt w.epoch raw (probe_reason w.epoch raw now) now;
}

module _ (decimal : ℕ → Text) where
  unfoldable pub step : World → Call → World × Transition
  step w (prepare inventory now) = ((prepare_inventory w inventory now).0, no_transition)
  step w (probe raw now) = (send_probe w raw now, no_transition)
  step w (report raw previous current inventory now) =
      observe_probe decimal w raw previous current inventory now
  step w (fail raw code now) = observe_error decimal w raw code now
  step w (headers raw previous current now) =
      ((begin_reset_from_headers w raw previous current now).0, no_transition)
  step w (use_account identities raw index now) =
      ((mark_natural w identities raw index now).0, no_transition)
  step w (warm identities raw epoch_id success is_blocked code now) = (
    (record_warmup_outcome w identities raw epoch_id success is_blocked code now).0,
    no_transition,
  )
  step w (store quotas polls) = (record w { quotas = quotas; polls = polls }, no_transition)

  unfoldable pub run : World → List Call → World × List Transition
  run w [] = (w, [])
  run w (c ∷ calls) = let (v, t) = step w c in let (u, ts) = run v calls in (u, t ∷ ts)
