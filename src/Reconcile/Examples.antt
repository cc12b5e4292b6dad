-- ===== src/Reconcile/Examples.antt =====
-- The theorems on the reconciliation at a credential that is quarantined for its weekly quota.
use cpa_codex_quota_schedule.Common.{◌*◌, true, false, [], ◌∷◌, arith, text, second, minute}
use cpa_codex_quota_schedule.Quota.{QuotaSource, QuotaSnapshot}
use cpa_codex_quota_schedule.Ban.Entry.{BanKind, BanPhase, BanEntry}
use cpa_codex_quota_schedule.Reconcile.Confirmations.{Confirmation, State}
use cpa_codex_quota_schedule.Reconcile.Cleared.{Round, rounds, rounds-AllProven}
use cpa_codex_quota_schedule.Reconcile.Proven.{AllProven}

abbrev weekly_ban : BanEntry
weekly_ban = record {
  reset_at = 1000;
  window = text "weekly";
  banned_at = 100;
  kind = BanKind.quota;
  phase = BanPhase.cooldown;
  probe_started_at = 0;
  probe_lease_until = 0;
  probe_attempts = 0;
  probe_owner = [];
  probe_dispatched = false;
  probe_failures = 0;
  local_backoff = 0;
  local_backoff_max = 0;
  evidence_generation = 1;
  probe_generation = 0;
  provisional = false;
}

-- The first snapshot of the new cycle has been seen at 200.
abbrev seen_once : Confirmation
seen_once = record {
  auth_id = text "a";
  banned_at = 100;
  ban_reset_at = 1000;
  first_snapshot_at = 200;
  last_snapshot_at = 200;
  confirmations = 1;
  reason = text "weekly_reset_anchor_advanced";
}

abbrev holding : BanEntry → State
holding e = record {
  bans = record {
    bans = (text "a", e) ∷ [];
    total_429s = 1;
    probation_429s = 0;
    probe_starts = 0;
    probe_successes = 0;
    probe_failures = 0;
  };
  confirmations = (text "a", seen_once) ∷ [];
  warmups = [];
  events = 1;
  clears = 0;
  last_reason = [];
  last_clear_at = 0;
}

abbrev next_cycle : QuotaSnapshot
next_cycle = record {
  five_hour_limit_status = [];
  auth_id = text "a";
  auth_index = text "1";
  windows =
      (record {
        class = text "weekly";
        window_seconds = 604800;
        reset_after_seconds = 0;
        reset_after_seconds_known = false;
        used_percent = 0;
        allowed = true;
        limit_reached = false;
        reset_at = 20 * second;
        source = QuotaSource.probe;
        observed_at = 300;
        window_usage_credits = 0;
        window_usage_credits_known = false;
      })
      ∷ [];
  refreshed_at = 300;
}

holding-AllProven : AllProven (holding weekly_ban).confirmations
holding-AllProven = (record { since = omega arith; apart = omega arith; counted = omega arith }, tt)

abbrev one_round : Round
one_round = record {
  meanwhile = λ b. b;
  quotas = (text "a", next_cycle) ∷ [];
  now = 310;
  stale = 15 * minute;
  retry_after = minute;
  since = λ b. b;
}

rounds-AllProven_example :
    AllProven (rounds (holding weekly_ban) (one_round ∷ one_round ∷ [])).confirmations
rounds-AllProven_example =
    rounds-AllProven (holding weekly_ban) (one_round ∷ one_round ∷ []) holding-AllProven
