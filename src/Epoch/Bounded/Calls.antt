-- ===== src/Epoch/Bounded/Calls.antt =====
-- quota_epoch.go: the calls of a sweep that looks for a reset, each of which uses up some of its work.
use cpa_codex_quota_schedule.Common.{
  ℕ, ◌≤◌, Bool, true, false, Option, none, some, ◌≡◌, ◌⊎◌, refl, arith, inl, inr, Option-cases,
  Bool-cases, Text, trim_space, Dict, lookup, insert, revise, length, bit, Time,
}
use cpa_codex_quota_schedule.Quota.{QuotaSnapshot}
use cpa_codex_quota_schedule.Epoch.State.{quorum, Reason, Target, Sweep, World, is_reset}
use cpa_codex_quota_schedule.Epoch.Evidence.{reset_evidence, new_epoch_evidence}
use cpa_codex_quota_schedule.Epoch.Sweep.{
  is_due, in_inventory, add_targets, begin_sweep, started_sweep, prepare_inventory, sweep_asks,
}
use cpa_codex_quota_schedule.Epoch.Confirm.{finalize_sweep}
use cpa_codex_quota_schedule.Epoch.Fresh.{finalize_sweep-inactive}
use cpa_codex_quota_schedule.Epoch.Observe.{
  begin_on_evidence, observe_target, observed_target, observe_account, fail_target, fail_account,
  observe_probe, observe_error, mark_natural, record_warmup_outcome,
}
use cpa_codex_quota_schedule.Epoch.Calls.{
  Call, prepare, probe, report, fail, headers, use_account, warm, store, step,
}
use cpa_codex_quota_schedule.Epoch.Bounded.Targets.{insert-IsShrunk, refresh-IsShrunk}
use cpa_codex_quota_schedule.Epoch.Bounded.Steps.{
  IsRunning, Progress, shrunk-Progress, finalize_sweep-Progress,
}
use cpa_codex_quota_schedule.Epoch.Bounded.Probes.{send_probe-Progress}

-- How many probes of a sweep the call sends.
abbrev pub sent : World → Call → ℕ
sent w (prepare inventory now) = 0
sent w (probe raw now) = bit (sweep_asks w.epoch.sweep (trim_space raw) now)
sent w (report raw previous current inventory now) = 0
sent w (fail raw code now) = 0
sent w (headers raw previous current now) = 0
sent w (use_account identities raw index now) = 0
sent w (warm identities raw epoch_id success is_blocked code now) = 0
sent w (store quotas polls) = 0

-- The calls that do not change the inventory: no probe is earlier than the sweep, and no sweep begins
-- from the headers of a response.
abbrev pub Within : Time → Dict Text → Call → Type 0
Within start i (prepare inventory now) = inventory ≡ i
Within start i (probe raw now) = start ≤ now
Within start i (report raw previous current inventory now) = Unit
Within start i (fail raw code now) = Unit
Within start i (headers raw previous current now) = ⊥
Within start i (use_account identities raw index now) = Unit
Within start i (warm identities raw epoch_id success is_blocked code now) = Unit
Within start i (store quotas polls) = Unit

observe_account-sweep :
    (w : World) (id : Text) (s : QuotaSnapshot) (o : Option Text) (now : Time)
    → (observe_account w id s o now).epoch.sweep ≡ w.epoch.sweep
unfolding observe_account
observe_account-sweep w id s o now = ground arith

fail_account-sweep :
    (w : World) (id code : Text) → (fail_account w id code).epoch.sweep ≡ w.epoch.sweep
unfolding fail_account
fail_account-sweep w id code = ground arith

mark_natural-sweep :
    (w : World) (identities : Dict Text) (raw index : Text) (now : Time)
    → (mark_natural w identities raw index now).0.epoch.sweep ≡ w.epoch.sweep
unfolding mark_natural
mark_natural-sweep w identities raw index now = ground arith

record_warmup_outcome-sweep :
    (w : World) (identities : Dict Text) (raw e : Text) (success is_blocked : Bool) (code : Text)
    (now : Time)
    → (record_warmup_outcome w identities raw e success is_blocked code now).0.epoch.sweep
      ≡ w.epoch.sweep
unfolding record_warmup_outcome
record_warmup_outcome-sweep w identities raw e success is_blocked code now = ground arith

-- A sweep that looks for a reset is not begun again.
begin_on_evidence-running :
    (w : World) (inventory : Dict Text) (id : Text) (o : Option Text) (now : Time)
    → w.epoch.sweep.active ≡ true
    → is_reset w.epoch.sweep.reason ≡ true
    → begin_on_evidence w inventory id o now ≡ w
unfolding begin_on_evidence
begin_on_evidence-running w inventory id o now a r = ground arith

observed_target-due :
    (start : Time) (t : Target) (id : Text) (s : QuotaSnapshot) (o : Option Text)
    → bit (is_due start (observed_target t id s o)) ≤ bit (is_due start t)
unfolding observed_target is_due
observed_target-due start t id s none = omega arith
observed_target-due start t id s (some why) = omega arith

started_sweep-running :
    (s : Sweep) (why : Reason) (id trigger : Text) (now : Time)
    → s.active ≡ true
    → is_reset s.reason ≡ true
    → started_sweep s why id trigger now ≡ (s, false)
unfolding started_sweep
started_sweep-running s why id trigger now a r = ground arith

begin_sweep-running :
    (w : World) (i : Dict Text) (why : Reason) (id trigger : Text) (now : Time)
    → w.epoch.sweep.active ≡ true
    → is_reset w.epoch.sweep.reason ≡ true
    → ((begin_sweep w i why id trigger now).0.epoch.sweep ≡ w.epoch.sweep)
      ⊎ ((begin_sweep w i why id trigger now).0.epoch.sweep ≡ (
          let m = (add_targets i false (revise (in_inventory i) w.epoch.sweep.targets) w.polls).0 in
          record w.epoch.sweep { targets = m; required = quorum (length m) }))
unfolding begin_sweep
begin_sweep-running w i why id trigger now a r =
    ground (arith, started_sweep-running w.epoch.sweep why id trigger now a r)

prepare_inventory-running :
    (w : World) (i : Dict Text) (now : Time)
    → w.epoch.sweep.active ≡ true
    → prepare_inventory w i now
      ≡ begin_sweep
          (record w {
            epoch = record w.epoch { accounts = revise (in_inventory i) w.epoch.accounts };
          })
          i
          w.epoch.sweep.reason
          w.epoch.sweep.trigger_auth_id
          w.epoch.sweep.trigger_reason
          now
unfolding prepare_inventory
prepare_inventory-running w i now a = ground arith

module _ (start deadline : Time) (i : Dict Text) (n : ℕ) where
  same-Progress :
      (s u : Sweep) → u ≡ s → IsRunning start deadline i n s → Progress start deadline i n 0 s u
  same-Progress s u e r = rw e (inr (r, omega arith))

  observe_target-Progress :
      (w : World) (id : Text) (s : QuotaSnapshot) (o : Option Text)
      → IsRunning start deadline i n w.epoch.sweep
      → Progress start deadline i n 0 w.epoch.sweep (observe_target w id s o).epoch.sweep
  unfolding observe_target
  observe_target-Progress w id s o r = elim (Option-cases (lookup id w.epoch.sweep.targets)) [
    | inl e ↦ rw (e, observe_target) (inr (r, omega arith))
    | inr (t, l) ↦
        let u = observed_target t id s o in
        rw (l, observe_target)
          (shrunk-Progress start deadline i n w.epoch.sweep (insert id u w.epoch.sweep.targets)
            w.epoch.sweep.required
            (insert-IsShrunk w.epoch.sweep.round_started_at i id t u w.epoch.sweep.targets l
              (observed_target-due w.epoch.sweep.round_started_at t id s o))
            r)
  ]

  fail_target-Progress :
      (w : World) (id code : Text)
      → IsRunning start deadline i n w.epoch.sweep
      → Progress start deadline i n 0 w.epoch.sweep (fail_target w id code).epoch.sweep
  unfolding fail_target
  fail_target-Progress w id code r = elim (Option-cases (lookup id w.epoch.sweep.targets)) [
    | inl e ↦ rw (e, fail_target) (inr (r, omega arith))
    | inr (t, l) ↦
        let u = record t { error = trim_space code } in
        rw (l, fail_target)
          (shrunk-Progress start deadline i n w.epoch.sweep (insert id u w.epoch.sweep.targets)
            w.epoch.sweep.required
            (insert-IsShrunk w.epoch.sweep.round_started_at i id t u w.epoch.sweep.targets l
              (unfold is_due in omega arith))
            r)
  ]

  begin_sweep-Progress :
      (s : Sweep) (w : World) (why : Reason) (id trigger : Text) (now : Time)
      → w.epoch.sweep ≡ s
      → s.active ≡ true
      → IsRunning start deadline i n s
      → Progress start deadline i n 0 s (begin_sweep w i why id trigger now).0.epoch.sweep
  begin_sweep-Progress s w why id trigger now e a r =
      elim (begin_sweep-running w i why id trigger now (rw e a) (rw e r.resets)) [
        | inl f ↦ rw (f, e) (inr (r, omega arith))
        | inr f ↦
            let m = (add_targets i false (revise (in_inventory i) s.targets) w.polls).0 in
            rw (f, e)
              (shrunk-Progress start deadline i n s m (quorum (length m))
                (refresh-IsShrunk s.round_started_at i false s.targets w.polls r.covered) r)
      ]

  prepare_inventory-Progress :
      (w : World) (now : Time)
      → w.epoch.sweep.active ≡ true
      → IsRunning start deadline i n w.epoch.sweep
      → Progress start deadline i n 0 w.epoch.sweep (prepare_inventory w i now).0.epoch.sweep
  prepare_inventory-Progress w now a r =
      let s = w.epoch.sweep in
      let v = record w {
        epoch = record w.epoch { accounts = revise (in_inventory i) w.epoch.accounts };
      } in
      rw (prepare_inventory-running w i now a)
        (begin_sweep-Progress s v s.reason s.trigger_auth_id s.trigger_reason now refl a r)

  module _ (decimal : ℕ → Text) where
    -- A sweep that has made progress is finalized.
    finalize_sweep-after :
        (s : Sweep) (w : World) (now : Time)
        → Progress start deadline i n 0 s w.epoch.sweep
        → Progress start deadline i n 0 s (finalize_sweep decimal w now).0.epoch.sweep
    finalize_sweep-after s w now p = elim (Bool-cases w.epoch.sweep.active) [
      | inr b ↦ rw (finalize_sweep-inactive decimal w now b) (inl (b, refl))
      | inl b ↦ elim p [
        | inl q ↦ absurd (ground (arith, b, q.0))
        | inr (r, l) ↦ elim (finalize_sweep-Progress start deadline i n decimal w now b r) [
          | inl q ↦ inl q
          | inr (t, m) ↦ inr (t, omega (arith, l, m))
        ]
      ]
    ]

    observe_probe-Progress :
        (w : World) (raw : Text) (p c : QuotaSnapshot) (inventory : Dict Text) (now : Time)
        → w.epoch.sweep.active ≡ true
        → IsRunning start deadline i n w.epoch.sweep
        → Progress start deadline i n 0 w.epoch.sweep
            (observe_probe decimal w raw p c inventory now).0.epoch.sweep
    unfolding observe_probe
    observe_probe-Progress w raw p c inventory now a r =
        let id = trim_space raw in
        let fresh = new_epoch_evidence w.epoch p c now in
        let e = reset_evidence p c now in
        let u = observe_target w id c fresh in
        rw (begin_on_evidence-running w inventory id fresh now a r.resets, observe_probe)
          (finalize_sweep-after w.epoch.sweep (observe_account u id c e now) now
            (rw (observe_account-sweep u id c e now) (observe_target-Progress w id c fresh r)))

    observe_error-Progress :
        (w : World) (raw code : Text) (now : Time)
        → IsRunning start deadline i n w.epoch.sweep
        → Progress start deadline i n 0 w.epoch.sweep
            (observe_error decimal w raw code now).0.epoch.sweep
    unfolding observe_error
    observe_error-Progress w raw code now r =
        let id = trim_space raw in
        let u = fail_target w id code in
        finalize_sweep-after w.epoch.sweep (fail_account u id code) now
          (rw (fail_account-sweep u id code) (fail_target-Progress w id code r))

    pub step-Progress :
        (w : World) (c : Call)
        → Within start i c
        → w.epoch.sweep.active ≡ true
        → IsRunning start deadline i n w.epoch.sweep
        → Progress start deadline i n (sent w c) w.epoch.sweep (step decimal w c).0.epoch.sweep
    unfolding step
    step-Progress w (prepare inventory now) h a r = rw h (prepare_inventory-Progress w now a r)
    step-Progress w (probe raw now) h a r = send_probe-Progress start deadline i n w raw now h r
    step-Progress w (report raw p c inventory now) h a r =
        observe_probe-Progress w raw p c inventory now a r
    step-Progress w (fail raw code now) h a r = observe_error-Progress w raw code now r
    step-Progress w (headers raw p c now) h a r = absurd h
    step-Progress w (use_account identities raw index now) h a r =
        same-Progress w.epoch.sweep (mark_natural w identities raw index now).0.epoch.sweep
          (mark_natural-sweep w identities raw index now) r
    step-Progress w (warm identities raw e success is_blocked code now) h a r =
        same-Progress w.epoch.sweep
          (record_warmup_outcome w identities raw e success is_blocked code now).0.epoch.sweep
          (record_warmup_outcome-sweep w identities raw e success is_blocked code now) r
    step-Progress w (store quotas polls) h a r = inr (r, omega arith)
