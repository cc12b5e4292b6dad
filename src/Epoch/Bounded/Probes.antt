-- ===== src/Epoch/Bounded/Probes.antt =====
-- quota_epoch.go: the probes of a sweep that looks for a reset, each of which uses up one of its work.
use cpa_codex_quota_schedule.Common.{
  ℕ, ◌≤◌, true, false, [], Option, some, ◌≡◌, ◌≢◌, ◌⊎◌, arith, inl, inr, Option-cases, Bool-cases,
  Text, trim_space, Dict, lookup, insert, bit, count_where-insert_held, Time,
}
use cpa_codex_quota_schedule.Epoch.State.{Target, Sweep, World, EpochState}
use cpa_codex_quota_schedule.Epoch.Sweep.{
  is_due, is_due_target, sweep_asks, round_start, probe_reason, record_probe_attempt,
  attempt_target, attempt_account,
}
use cpa_codex_quota_schedule.Epoch.Calls.{send_probe}
use cpa_codex_quota_schedule.Epoch.Bounded.Targets.{insert-IsShrunk}
use cpa_codex_quota_schedule.Epoch.Bounded.Steps.{IsRunning, Progress, shrunk-IsRunning}

attempt_account-sweep :
    (e : EpochState) (id : Text) (now : Time) → (attempt_account e id now).sweep ≡ e.sweep
unfolding attempt_account
attempt_account-sweep e id now = ground arith

send_probe-refused :
    (w : World) (raw : Text) (now : Time)
    → sweep_asks w.epoch.sweep (trim_space raw) now ≡ false
    → (send_probe w raw now).epoch.sweep ≡ w.epoch.sweep
unfolding send_probe probe_reason record_probe_attempt
send_probe-refused w raw now a = ground (arith, attempt_account-sweep w.epoch (trim_space raw) now)

send_probe-asked :
    (w : World) (raw : Text) (now : Time)
    → sweep_asks w.epoch.sweep (trim_space raw) now ≡ true
    → send_probe w raw now ≡ record w { epoch = attempt_target w.epoch (trim_space raw) now }
unfolding send_probe probe_reason record_probe_attempt
send_probe-asked w raw now a = ground arith

due-asked :
    (start : Time) (t : Target) (o : Option Target)
    → is_due_target start o ≡ true
    → o ≡ some t
    → is_due start t ≡ true
due-asked start t o d e = ground arith

attempted-due :
    (start : Time) (t : Target) (now : Time)
    → start ≢ 0
    → start ≤ now
    → is_due start (record t { attempted_at = now; error = [] }) ≡ false
unfolding is_due
attempted-due start t now z h = ground arith

-- What a sweep that asks for a probe tells of the moment.
record IsAsked (s : Sweep) (id : Text) (now : Time) : Type 0 where
  waited : (s.next_round_at ≡ 0) ⊎ (s.next_round_at ≤ now)
  due : is_due_target (round_start s) (lookup id s.targets) ≡ true

sweep_asks-IsAsked :
    (s : Sweep) (id : Text) (now : Time) → sweep_asks s id now ≡ true → IsAsked s id now
unfolding sweep_asks
sweep_asks-IsAsked s id now a = record { waited = ground arith; due = ground arith }

round_start-anchored : (s : Sweep) → s.round_started_at ≢ 0 → round_start s ≡ s.round_started_at
round_start-anchored s z = ground arith

module _ (start deadline : Time) (i : Dict Text) (n : ℕ) where
  -- The round has begun when the sweep asks for a probe.
  asked-begun :
      (s : Sweep) (id : Text) (now : Time)
      → start ≤ now
      → IsAsked s id now
      → IsRunning start deadline i n s
      → s.round_started_at ≤ now
  asked-begun s id now h a r = elim (r.opened) [
    | inl p ↦ omega arith
    | inr p ↦ elim (a.waited) [ inl q ↦ absurd (r.anchored (omega arith)) | inr q ↦ omega arith ]
  ]

  attempt_target-Progress :
      (e : EpochState) (id : Text) (now : Time)
      → start ≤ now
      → IsAsked e.sweep id now
      → IsRunning start deadline i n e.sweep
      → Progress start deadline i n 1 e.sweep (attempt_target e id now).sweep
  unfolding attempt_target
  attempt_target-Progress e id now h a r = elim (Option-cases (lookup id e.sweep.targets)) [
    | inl l ↦ absurd (ground (arith, l, a.due))
    | inr (t, l) ↦
        let s = e.sweep in
        let u = record t { attempted_at = now; error = [] } in
        let d : is_due s.round_started_at t ≡ true =
          due-asked s.round_started_at t (lookup id s.targets)
            (rw (round_start-anchored s r.anchored) at a.due) l in
        let f = attempted-due s.round_started_at t now r.anchored (asked-begun s id now h a r) in
        let k = insert-IsShrunk s.round_started_at i id t u s.targets l (rw f (omega arith)) in
        let c = count_where-insert_held (is_due s.round_started_at) id t u s.targets l in
        rw (l, attempt_target)
          (inr (
            shrunk-IsRunning start deadline i n s (insert id u s.targets) s.required k r,
            ground (arith, c, d, f),
          ))
  ]

  pub send_probe-Progress :
      (w : World) (raw : Text) (now : Time)
      → start ≤ now
      → IsRunning start deadline i n w.epoch.sweep
      → Progress start deadline i n
          (bit (sweep_asks w.epoch.sweep (trim_space raw) now))
          w.epoch.sweep
          (send_probe w raw now).epoch.sweep
  send_probe-Progress w raw now h r =
      elim (Bool-cases (sweep_asks w.epoch.sweep (trim_space raw) now)) [
        | inr b ↦ rw (b, send_probe-refused w raw now b) (inr (r, omega arith))
        | inl b ↦
            rw (b, send_probe-asked w raw now b)
              (attempt_target-Progress w.epoch (trim_space raw) now h
                (sweep_asks-IsAsked w.epoch.sweep (trim_space raw) now b) r)
      ]
