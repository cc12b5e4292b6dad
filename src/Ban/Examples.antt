-- ===== src/Ban/Examples.antt =====
-- The theorems on the quarantine store at concrete calls.
use cpa_codex_quota_schedule.Common.{
  true, false, List, [], ◌∷◌, some, ◌≡◌, refl, inl, arith, Text, text, text_discrete, ℕ_discrete,
  lookup, trim_space, hour,
}
use cpa_codex_quota_schedule.Ban.Entry.{BanKind, BanPhase, BanEntry}
use cpa_codex_quota_schedule.Ban.Store.{BanState, record_429, try_start_probe_owned, schedulable}
use cpa_codex_quota_schedule.Ban.Completion.{complete_owned_probe}
use cpa_codex_quota_schedule.Ban.Calls.{Call, records, starts, completes, run}
use cpa_codex_quota_schedule.Ban.Quarantine.{Banned, run-Banned}
use cpa_codex_quota_schedule.Ban.Ownership.{Probed}
use cpa_codex_quota_schedule.Ban.Ownership.Runs.{try_start_exclusive}
use cpa_codex_quota_schedule.Ban.Cooldown.{complete-record_429_keeps}

abbrev alice : Text
alice = text "alice"

abbrev first : Text
first = text "r1"

abbrev second : Text
second = text "r2"

-- A cooldown recorded at 100 that ends at 500.
abbrev cooling : BanEntry
cooling = record {
  reset_at = 500;
  window = text "5h";
  banned_at = 100;
  kind = BanKind.quota;
  phase = BanPhase.cooldown;
  probe_started_at = 0;
  probe_lease_until = 0;
  probe_attempts = 0;
  probe_owner = [];
  probe_dispatched = false;
  probe_failures = 0;
  local_backoff = 0;
  local_backoff_max = 0;
  evidence_generation = 1;
  probe_generation = 0;
  provisional = false;
}

-- The same after the request r1 has started its probe at 600.
abbrev trying : BanEntry
trying = record cooling {
  phase = BanPhase.half_open;
  probe_started_at = 600;
  probe_lease_until = 700;
  probe_owner = first;
  probe_generation = 1;
}

abbrev holding : BanEntry → BanState
holding e = record {
  bans = (alice, e) ∷ [];
  total_429s = 1;
  probation_429s = 0;
  probe_starts = 0;
  probe_successes = 0;
  probe_failures = 0;
}

abbrev calls : List Call
calls =
    records alice cooling 650 ∷ starts alice second 9_000 0 ∷ completes alice 640 660 false 0 ∷ []

run-Banned_example : Banned (run (holding cooling) calls) alice
unfolding lookup text_discrete ℕ_discrete
run-Banned_example =
    run-Banned alice (holding cooling) calls (tt, (tt, (inl refl, tt)))
      (record { present = tt; is_map = (tt, tt) })

trying-Probed : Probed (holding trying) alice first
unfolding lookup text_discrete ℕ_discrete
trying-Probed = record { owned_by = (refl, refl, omega arith); is_map = (tt, tt) }

try_start_exclusive_example :
    (try_start_probe_owned (run (holding trying) calls) alice second 1_000_000 hour
      ≡ (run (holding trying) calls, false, false))
    × (schedulable (run (holding trying) calls) alice 1_000_000 ≡ false)
unfolding trim_space
try_start_exclusive_example =
    try_start_exclusive alice first (λ e. cc) (holding trying) calls second 1_000_000 hour refl
      (λ e. cc) (λ e. ground arith) (tt, (tt, (tt, tt))) trying-Probed

complete-record_429_keeps_example :
    (e' : BanEntry) × (lookup alice
        (complete_owned_probe
          (record_429 (holding trying) alice cooling 650)
          first
          true
          800
          0
          0).0.bans
      ≡ some e')
    × (e'.phase ≡ BanPhase.cooldown)
    × (e'.probe_owner ≡ [])
unfolding trim_space lookup text_discrete ℕ_discrete
complete-record_429_keeps_example =
    complete-record_429_keeps (holding trying) alice first trying cooling 650 800 0 0 (tt, tt) refl
      (λ e. cc) (λ e. cc) refl refl (omega arith) refl refl (omega arith)
