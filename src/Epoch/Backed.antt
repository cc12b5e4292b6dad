-- ===== src/Epoch/Backed.antt =====
-- quota_epoch.go: how many accounts show a reset before it is confirmed, over the calls that the
-- runtime makes.
mod Begun
mod Sweeps
use cpa_codex_quota_schedule.Common.{
  ℕ, ◌+◌, ◌*◌, ◌≤◌, ◌<◌, Bool, true, false, List, ◌∷◌, [], Option, none, some, ◌≡◌, ◌≢◌, ◌⊎◌, not,
  min, is_empty, ◌&&◌, ◌||◌, refl, ap, sym, ◌∙◌, arith, inl, inr, Bool-cases, Option-cases, Text,
  text, ◌++◌, trim_space, Dict, lookup, insert, revise, length, length-insert_held, bit,
  count_where, count_where-insert_held, Time, if◌then◌else◌, ◌==◌,
}
use cpa_codex_quota_schedule.Quota.{QuotaSnapshot}
use cpa_codex_quota_schedule.Epoch.State.{
  Reason, bootstrap, inventory_change, provider_reset, Target, Poll, Sweep, EpochState, World,
  new_state, is_reset, is_inventory_change, quorum, Account,
}
use cpa_codex_quota_schedule.Epoch.Evidence.{reset_evidence, new_epoch_evidence}
use cpa_codex_quota_schedule.Epoch.Sweep.{
  is_held, begin_sweep, started_sweep, fresh_sweep, escalate, prepare_inventory, in_inventory,
  attempt_target, attempt_account, probe_reason, ProbeReason, no_probe, epoch_reset_sweep,
  epoch_bootstrap, epoch_pending, record_probe_attempt,
}
use cpa_codex_quota_schedule.Epoch.Rounds.{
  Transition, sweep_counts, settle_sweep, close_sweep, schedule_next_round,
}
use cpa_codex_quota_schedule.Epoch.Confirm.{
  decide_sweep, confirm, finalize_sweep, has_quorum, is_first_epoch,
}
use cpa_codex_quota_schedule.Epoch.Observe.{
  known_inventory, begin_on_evidence, observe_target, observed_target, with_evidence,
  observe_account, fail_target, fail_account, mark_target, begin_reset_from_headers, mark_natural,
  record_warmup_outcome, observe_probe, observe_error, or_empty,
}
use cpa_codex_quota_schedule.Epoch.Calls.{
  Call, prepare, probe, report, fail, headers, use_account, warm, store, step, run, send_probe,
}
use cpa_codex_quota_schedule.Epoch.Fresh.{
  confirm-named, finalize_sweep-active, finalize_sweep-inactive, settle_sweep-IsSettled,
}
use Begun.{shows, IsBacked, kept-IsBacked, begin_on_evidence-IsBacked, prepare_inventory-IsBacked}
use Sweeps.{
  observe_target-IsBacked, fail_target-IsBacked, begin_reset_from_headers-IsBacked,
  observe_account-IsKept, fail_account-IsKept, mark_natural-IsKept, record_warmup_outcome-IsKept,
  record_probe_attempt-IsBacked,
}

-- No epoch, and what the runtime has stored.
abbrev pub first_world : Dict QuotaSnapshot → Dict Poll → World
first_world quotas polls = record { epoch = new_state; quotas = quotas; polls = polls }

-- At least half of the targets, and two where there are two, show a reset.
pub record IsShown (m : Dict Target) : Type 0 where
  pub half : length m ≤ 2 * count_where shows m
  pub pair : min (length m) 2 ≤ count_where shows m

sweep_counts-shows :
    (start : Time) (m : Dict Target) → (sweep_counts start m).1 ≡ count_where shows m
unfolding sweep_counts count_where
sweep_counts-shows start [] = refl
sweep_counts-shows start ((id, t) ∷ m) = ground (arith, sweep_counts-shows start m)

settle_sweep-opened :
    (w : World) (t : Transition) (now : Time)
    → (settle_sweep w t now).epoch.sweep.active ≡ true
    → (t.id ≡ []) × (w.epoch.sweep.active ≡ true)
unfolding settle_sweep close_sweep schedule_next_round
settle_sweep-opened w t now a = ground arith

quorum-half : (n : ℕ) → (n ≤ 2 * quorum n) × (min n 2 ≤ quorum n)
unfolding quorum
quorum-half n = ground arith

module _ (decimal : ℕ → Text) where
  -- The sweep may have confirmed the epoch that the transition names.
  record IsDecided (w : World) (t : Transition) : Type 0 where
    counted : w.epoch.sweep.required ≡ quorum (length w.epoch.sweep.targets)
    opened : t.id ≡ [] → w.epoch.sweep.active ≡ true → w.epoch.sweep.epoch_id ≡ []
    named : is_reset w.epoch.reason ≡ true → w.epoch.id ≢ []
    backed :
        is_reset w.epoch.reason ≡ true
        → w.epoch.id ≡ w.epoch.sweep.epoch_id
        → w.epoch.sweep.required ≤ count_where shows w.epoch.sweep.targets

  has_quorum-counts : (s : Sweep) (n : ℕ) → has_quorum s n ≡ true → s.required ≤ n
  has_quorum-counts s n h = ground arith

  confirm-IsDecided :
      (w : World) (why : Reason) (now : Time)
      → IsBacked w
      → (is_reset why ≡ true → w.epoch.sweep.required ≤ count_where shows w.epoch.sweep.targets)
      → IsDecided (confirm decimal w why now).0 (confirm decimal w why now).1
  unfolding confirm
  confirm-IsDecided w why now b h = record {
    counted = b.counted;
    opened = λ e. absurd (confirm-named decimal w why now e);
    named = λ r. confirm-named decimal w why now;
    backed = λ r e. h r;
  }

  decide_sweep-IsDecided :
      (w : World) (now : Time)
      → IsBacked w
      → IsDecided (decide_sweep decimal w now).0 (decide_sweep decimal w now).1
  unfolding decide_sweep
  decide_sweep-IsDecided w now b =
      let s = w.epoch.sweep in
      let c = sweep_counts s.started_at s.targets in
      elim (Bool-cases (has_quorum s c.1)) [
        | inl q ↦
            rw (q, decide_sweep)
              (confirm-IsDecided w provider_reset now b (λ r.
                rw (sweep_counts-shows s.started_at s.targets) at (has_quorum-counts s c.1 q)))
        | inr q ↦ elim (Bool-cases (is_first_epoch w.epoch c.0 now)) [
          | inl f ↦
              rw (q, f, decide_sweep)
                (confirm-IsDecided w bootstrap now b (λ r. absurd (ground (arith, r))))
          | inr f ↦ elim (Bool-cases (is_inventory_change s.reason && not (is_empty w.epoch.id))) [
            | inl x ↦
                rw (q, f, x, decide_sweep)
                  (record {
                    counted = b.counted;
                    opened = λ e. b.opened;
                    named = b.named;
                    backed = b.backed;
                  })
            | inr x ↦
                rw (q, f, x, decide_sweep)
                  (record {
                    counted = b.counted;
                    opened = λ e. b.opened;
                    named = b.named;
                    backed = b.backed;
                  })
          ]
        ]
      ]

  settle_sweep-IsBacked :
      (w : World) (t : Transition) (now : Time) → IsDecided w t → IsBacked (settle_sweep w t now)
  settle_sweep-IsBacked w t now d =
      let k = settle_sweep-IsSettled w t now in
      record {
        counted = rw (k.required_kept, k.targets_kept) d.counted;
        opened =
            λ a. let o = settle_sweep-opened w t now a in rw k.epoch_id_kept (d.opened o.0 o.1);
        named = rw (k.reason_kept, k.id_kept) d.named;
        backed =
            rw (k.reason_kept, k.id_kept, k.epoch_id_kept, k.required_kept, k.targets_kept)
              d.backed;
      }

  finalize_sweep-IsBacked :
      (w : World) (now : Time) → IsBacked w → IsBacked (finalize_sweep decimal w now).0
  finalize_sweep-IsBacked w now b = elim (Bool-cases w.epoch.sweep.active) [
    | inr a ↦ rw (finalize_sweep-inactive decimal w now a) b
    | inl a ↦
        let r = decide_sweep decimal w now in
        rw (finalize_sweep-active decimal w now a)
          (settle_sweep-IsBacked r.0 r.1 now (decide_sweep-IsDecided w now b))
  ]

  observe_probe-IsBacked :
      (w : World) (raw : Text) (p c : QuotaSnapshot) (inventory : Dict Text) (now : Time)
      → IsBacked w
      → IsBacked (observe_probe decimal w raw p c inventory now).0
  unfolding observe_probe
  observe_probe-IsBacked w raw p c inventory now b =
      let id = trim_space raw in
      let fresh = new_epoch_evidence w.epoch p c now in
      let e = reset_evidence p c now in
      let v = begin_on_evidence w inventory id fresh now in
      let u = observe_target v id c fresh in
      finalize_sweep-IsBacked (observe_account u id c e now) now (
        kept-IsBacked u (observe_account u id c e now) (observe_account-IsKept u id c e now) (
          observe_target-IsBacked v id c fresh
            (begin_on_evidence-IsBacked w inventory id fresh now b)))

  observe_error-IsBacked :
      (w : World) (raw code : Text) (now : Time)
      → IsBacked w
      → IsBacked (observe_error decimal w raw code now).0
  unfolding observe_error
  observe_error-IsBacked w raw code now b =
      let id = trim_space raw in
      let u = fail_target w id code in
      finalize_sweep-IsBacked (fail_account u id code) now (
        kept-IsBacked u (fail_account u id code) (fail_account-IsKept u id code)
          (fail_target-IsBacked w id code b))

  step-IsBacked : (w : World) (c : Call) → IsBacked w → IsBacked (step decimal w c).0
  unfolding step send_probe
  step-IsBacked w (prepare inventory now) b = prepare_inventory-IsBacked w inventory now b
  step-IsBacked w (probe raw now) b =
      record_probe_attempt-IsBacked w raw (probe_reason w.epoch raw now) now b
  step-IsBacked w (report raw p c inventory now) b =
      observe_probe-IsBacked w raw p c inventory now b
  step-IsBacked w (fail raw code now) b = observe_error-IsBacked w raw code now b
  step-IsBacked w (headers raw p c now) b = begin_reset_from_headers-IsBacked w raw p c now b
  step-IsBacked w (use_account identities raw index now) b =
      kept-IsBacked w (mark_natural w identities raw index now).0
        (mark_natural-IsKept w identities raw index now) b
  step-IsBacked w (warm identities raw e success is_blocked code now) b =
      kept-IsBacked w (record_warmup_outcome w identities raw e success is_blocked code now).0
        (record_warmup_outcome-IsKept w identities raw e success is_blocked code now) b
  step-IsBacked w (store quotas polls) b =
      kept-IsBacked w (record w { quotas = quotas; polls = polls })
        (record { id_kept = refl; reason_kept = refl; sweep_kept = refl }) b

  run-IsBacked : (w : World) (calls : List Call) → IsBacked w → IsBacked (run decimal w calls).0
  unfolding run
  run-IsBacked w [] b = b
  run-IsBacked w (c ∷ calls) b = run-IsBacked (step decimal w c).0 calls (step-IsBacked w c b)

  first_world-IsBacked :
      (quotas : Dict QuotaSnapshot) (polls : Dict Poll) → IsBacked (first_world quotas polls)
  unfolding quorum
  first_world-IsBacked quotas polls = record {
    counted = refl;
    opened = λ a. refl;
    named = λ r. absurd (ground (arith, r));
    backed = λ r e. omega arith;
  }

  -- A reset counts as one only when enough accounts show it: after any calls from the first state, if
  -- the epoch is that of a reset and the current sweep has confirmed it, then at least half of the
  -- sweep's targets, and two of them where it has two or more, have shown the reset.
  pub run-IsShown :
      (quotas : Dict QuotaSnapshot) (polls : Dict Poll) (calls : List Call)
      → is_reset (run decimal (first_world quotas polls) calls).0.epoch.reason ≡ true
      → (run decimal (first_world quotas polls) calls).0.epoch.id
        ≡ (run decimal (first_world quotas polls) calls).0.epoch.sweep.epoch_id
      → IsShown (run decimal (first_world quotas polls) calls).0.epoch.sweep.targets
  run-IsShown quotas polls calls r e =
      let w = first_world quotas polls in
      let b = run-IsBacked w calls (first_world-IsBacked quotas polls) in
      let m = (run decimal w calls).0.epoch.sweep.targets in
      let q = quorum-half (length m) in
      let k = b.backed r e in
      record { half = omega (arith, b.counted, k, q.0); pair = omega (arith, b.counted, k, q.1) }
