-- ===== src/Epoch/Backed/Sweeps.antt =====
-- quota_epoch.go: how many accounts show a reset of the epoch, through the operations on a sweep.
use cpa_codex_quota_schedule.Common.{
  ◌≤◌, Bool, true, [], Option, none, some, arith, inl, inr, Bool-cases, Option-cases, Text, text,
  ◌++◌, trim_space, Dict, lookup, bit, Time,
}
use cpa_codex_quota_schedule.Quota.{QuotaSnapshot}
use cpa_codex_quota_schedule.Epoch.State.{provider_reset, Target, World}
use cpa_codex_quota_schedule.Epoch.Evidence.{new_epoch_evidence}
use cpa_codex_quota_schedule.Epoch.Sweep.{
  begin_sweep, attempt_target, attempt_account, ProbeReason, no_probe, epoch_reset_sweep,
  epoch_bootstrap, epoch_pending, record_probe_attempt,
}
use cpa_codex_quota_schedule.Epoch.Observe.{
  known_inventory, observe_target, observed_target, observe_account, fail_target, fail_account,
  mark_target, begin_reset_from_headers, mark_natural, record_warmup_outcome,
}
use cpa_codex_quota_schedule.Epoch.Backed.Begun.{
  shows, IsBacked, IsKept, kept-IsBacked, insert-IsBacked, begin_sweep-IsBacked,
}

observed_target-shows :
    (t : Target) (id : Text) (s : QuotaSnapshot) (o : Option Text)
    → bit (shows t) ≤ bit (shows (observed_target t id s o))
unfolding observed_target
observed_target-shows t id s none = omega arith
observed_target-shows t id s (some why) = ground arith

pub observe_target-IsBacked :
    (w : World) (id : Text) (s : QuotaSnapshot) (o : Option Text)
    → IsBacked w
    → IsBacked (observe_target w id s o)
unfolding observe_target
observe_target-IsBacked w id s o b = elim (Option-cases (lookup id w.epoch.sweep.targets)) [
  | inl e ↦ rw (e, observe_target) b
  | inr (t, l) ↦
      rw (l, observe_target)
        (insert-IsBacked w id t (observed_target t id s o) l (observed_target-shows t id s o) b)
]

pub fail_target-IsBacked :
    (w : World) (id code : Text) → IsBacked w → IsBacked (fail_target w id code)
unfolding fail_target
fail_target-IsBacked w id code b = elim (Option-cases (lookup id w.epoch.sweep.targets)) [
  | inl e ↦ rw (e, fail_target) b
  | inr (t, l) ↦
      rw (l, fail_target)
        (insert-IsBacked w id t (record t { error = trim_space code }) l (omega arith) b)
]

mark_target-IsBacked : (w : World) (id why : Text) → IsBacked w → IsBacked (mark_target w id why)
unfolding mark_target
mark_target-IsBacked w id why b = elim (Option-cases (lookup id w.epoch.sweep.targets)) [
  | inl e ↦ rw (e, mark_target) b
  | inr (t, l) ↦
      rw (l, mark_target)
        (insert-IsBacked w id t (record t { evidence = true; evidence_reason = why }) l
          (ground arith) b)
]

pub begin_reset_from_headers-IsBacked :
    (w : World) (raw : Text) (p c : QuotaSnapshot) (now : Time)
    → IsBacked w
    → IsBacked (begin_reset_from_headers w raw p c now).0
unfolding begin_reset_from_headers
begin_reset_from_headers-IsBacked w raw p c now b =
    elim (Option-cases (new_epoch_evidence w.epoch p c now)) [
      | inl n ↦ rw (n, begin_reset_from_headers) b
      | inr (why, e) ↦
          let i = known_inventory w.quotas [] in
          let v = begin_sweep w i provider_reset raw (text "header_" ++ why) now in
          let k = begin_sweep-IsBacked w i provider_reset raw (text "header_" ++ why) now b in
          elim (Bool-cases v.1) [
            | inl y ↦
                rw (e, y, begin_reset_from_headers)
                  (mark_target-IsBacked v.0 (trim_space raw) (text "header_" ++ why) k)
            | inr y ↦ rw (e, y, begin_reset_from_headers) k
          ]
    ]

pub observe_account-IsKept :
    (w : World) (id : Text) (s : QuotaSnapshot) (o : Option Text) (now : Time)
    → IsKept w (observe_account w id s o now)
unfolding observe_account
observe_account-IsKept w id s o now = ground arith

pub fail_account-IsKept : (w : World) (id code : Text) → IsKept w (fail_account w id code)
unfolding fail_account
fail_account-IsKept w id code = ground arith

pub mark_natural-IsKept :
    (w : World) (identities : Dict Text) (raw index : Text) (now : Time)
    → IsKept w (mark_natural w identities raw index now).0
unfolding mark_natural
mark_natural-IsKept w identities raw index now = ground arith

pub record_warmup_outcome-IsKept :
    (w : World) (identities : Dict Text) (raw e : Text) (success is_blocked : Bool) (code : Text)
    (now : Time)
    → IsKept w (record_warmup_outcome w identities raw e success is_blocked code now).0
unfolding record_warmup_outcome
record_warmup_outcome-IsKept w identities raw e success is_blocked code now = ground arith

attempt_account-IsKept :
    (w : World) (id : Text) (now : Time)
    → IsKept w (record w { epoch = attempt_account w.epoch id now })
unfolding attempt_account
attempt_account-IsKept w id now = ground arith

attempt_target-IsBacked :
    (w : World) (id : Text) (now : Time)
    → IsBacked w
    → IsBacked (record w { epoch = attempt_target w.epoch id now })
unfolding attempt_target
attempt_target-IsBacked w id now b = elim (Option-cases (lookup id w.epoch.sweep.targets)) [
  | inl e ↦ rw (e, attempt_target) b
  | inr (t, l) ↦
      rw (l, attempt_target)
        (insert-IsBacked w id t (record t { attempted_at = now; error = [] }) l (omega arith) b)
]

pub record_probe_attempt-IsBacked :
    (w : World) (raw : Text) (why : ProbeReason) (now : Time)
    → IsBacked w
    → IsBacked (record w { epoch = record_probe_attempt w.epoch raw why now })
unfolding record_probe_attempt
record_probe_attempt-IsBacked w raw no_probe now b = b
record_probe_attempt-IsBacked w raw epoch_reset_sweep now b =
    attempt_target-IsBacked w (trim_space raw) now b
record_probe_attempt-IsBacked w raw epoch_bootstrap now b =
    attempt_target-IsBacked w (trim_space raw) now b
record_probe_attempt-IsBacked w raw epoch_pending now b =
    kept-IsBacked w (record w { epoch = attempt_account w.epoch (trim_space raw) now })
      (attempt_account-IsKept w (trim_space raw) now) b
