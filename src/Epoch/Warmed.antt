-- ===== src/Epoch/Warmed.antt =====
-- quota_epoch.go: an account that has been warmed up, over the calls that the runtime makes.
mod Kept
use cpa_codex_quota_schedule.Common.{
  ℕ, Bool, true, false, List, [], ◌∷◌, Option, none, some, ◌≡◌, ◌≢◌, refl, sym, ◌∙◌, ap, arith, inl,
  inr, if◌then◌else◌, All, ◌++◌, text, lookup-insert_self, ◌&&◌, ◌||◌, ◌+◌, Bool-cases,
  Option-cases, Text, text_discrete, Dict, lookup, insert, lookup-insert, revise, lookup-revise,
  IsMap, Time, trim_space, is_empty, before, same, is_zero, not,
}
use cpa_codex_quota_schedule.Quota.{QuotaSnapshot}
use cpa_codex_quota_schedule.Runtime.Identity.{canonical_auth_id}
use cpa_codex_quota_schedule.Epoch.State.{
  warmed, is_pending_state, bootstrap, inventory_change, provider_reset, Account, Target, Reason,
  EpochState, Poll, World,
}
use cpa_codex_quota_schedule.Epoch.Sweep.{
  needs_observation, begin_sweep, set_sweep, is_held, in_inventory, prepare_inventory, probe_reason,
  ProbeReason, no_probe, epoch_reset_sweep, epoch_bootstrap, epoch_pending, record_probe_attempt,
  attempt_target, attempt_account,
}
use cpa_codex_quota_schedule.Epoch.Observe.{
  observe_probe, observe_error, known_inventory, or_empty, put_account, observe_target,
  observe_account, observed_account, adopted_account, can_adopt, fail_target, fail_account,
  mark_target, begin_on_evidence, begin_reset_from_headers, used_account, mark_natural,
  record_warmup_outcome, warmed_account, warmup_allowance, allows_warmup,
}
use cpa_codex_quota_schedule.Epoch.Calls.{
  send_probe, step, run, Call, prepare, probe, report, fail, headers, use_account, warm, store,
}
use cpa_codex_quota_schedule.Epoch.Evidence.{reset_evidence, new_epoch_evidence}
use cpa_codex_quota_schedule.Epoch.Confirm.{
  adopt_accounts, decide_sweep, finalize_sweep, account_from_snapshot, has_quorum, is_first_epoch,
  confirm,
}
use cpa_codex_quota_schedule.Epoch.Rounds.{Transition, settle_sweep, sweep_counts}
use cpa_codex_quota_schedule.Epoch.Fresh.{
  confirm-named, finalize_sweep-active, finalize_sweep-inactive, settle_sweep-IsSettled,
}
use cpa_codex_quota_schedule.Epoch.Inventory.{IsHeld}
use Kept.{
  IsWarmed, same-IsWarmed, begin_sweep-accounts, observe_target-accounts, fail_target-accounts,
  begin_on_evidence-accounts, observe_account-IsWarmed, fail_account-IsWarmed,
  mark_natural-IsWarmed, record_warmup_outcome-IsWarmed, record_probe_attempt-IsWarmed,
  prepare_inventory-IsWarmed, begin_reset_from_headers-accounts,
  record_warmup_outcome-IsWarmed_self, warmup_allowance-IsWarmed,
}

-- An account that is held stays when another is adopted.
adopt_account-held :
    (id k : Text) (skips : Bool) (o : Option QuotaSnapshot) (now : Time) (accounts : Dict Account)
    (a : Account)
    → lookup id accounts ≡ some a
    → lookup id (
        if is_held (lookup k accounts) || skips
        then accounts
        else elim o [ none ↦ accounts | some s ↦ insert k (account_from_snapshot s now) accounts ])
      ≡ some a
adopt_account-held id k skips none now accounts a l = ground arith
adopt_account-held id k skips (some s) now accounts a l = elim (text_discrete k id) [
  | yes e ↦ ground (arith, e, l)
  | no n ↦ ground (arith, lookup-insert k id (account_from_snapshot s now) accounts)
]

adopt_accounts-held :
    (id : Text) (w : World) (targets : Dict Target) (now : Time) (accounts : Dict Account)
    (a : Account)
    → lookup id accounts ≡ some a
    → lookup id (adopt_accounts w targets now accounts) ≡ some a
unfolding adopt_accounts
adopt_accounts-held id w [] now accounts a l = l
adopt_accounts-held id w ((k, t) ∷ targets) now accounts a l =
    let next =
      if is_held (lookup k accounts) || is_zero t.observed_at
      then accounts
      else elim (lookup k w.quotas) [
        | none ↦ accounts
        | some s ↦ insert k (account_from_snapshot s now) accounts
      ] in
    adopt_accounts-held id w targets now next a
      (adopt_account-held id k (is_zero t.observed_at) (lookup k w.quotas) now accounts a l)

-- The inventory keeps the account, and no warmup is recorded as failed.
abbrev pub Keeps : Text → Call → Type 0
Keeps id (prepare inventory now) = IsHeld id inventory
Keeps id (probe raw now) = Unit
Keeps id (report raw previous current inventory now) = Unit
Keeps id (fail raw code now) = Unit
Keeps id (headers raw previous current now) = Unit
Keeps id (use_account identities raw index now) = Unit
Keeps id (warm identities raw epoch_id success is_blocked code now) = success ≡ true
Keeps id (store quotas polls) = Unit

module _ (decimal : ℕ → Text) where
  decide_sweep-IsWarmed :
      (id : Text) (w : World) (now : Time)
      → (decide_sweep decimal w now).1.id ≡ []
      → IsWarmed id w
      → IsWarmed id (decide_sweep decimal w now).0
  unfolding decide_sweep
  decide_sweep-IsWarmed id w now t (a, l, s) =
      let c = sweep_counts w.epoch.sweep.started_at w.epoch.sweep.targets in
      let p = confirm-named decimal w provider_reset now in
      let b = confirm-named decimal w bootstrap now in
      let k = adopt_accounts-held id w w.epoch.sweep.targets now w.epoch.accounts a l in
      (a, ground (arith, t, p, b, k, l), s)

  finalize_sweep-IsWarmed :
      (id : Text) (w : World) (now : Time)
      → (finalize_sweep decimal w now).1.id ≡ []
      → IsWarmed id w
      → IsWarmed id (finalize_sweep decimal w now).0
  finalize_sweep-IsWarmed id w now t h = elim (Bool-cases w.epoch.sweep.active) [
    | inr b ↦ rw (finalize_sweep-inactive decimal w now b) h
    | inl b ↦
        let r = decide_sweep decimal w now in
        rw (finalize_sweep-active decimal w now b) (
          same-IsWarmed id r.0 (settle_sweep r.0 r.1 now)
            (settle_sweep-IsSettled r.0 r.1 now).accounts_kept
            (decide_sweep-IsWarmed id w now (rw (finalize_sweep-active decimal w now b) at t) h))
  ]

  observe_probe-IsWarmed :
      (id : Text) (w : World) (raw : Text) (p c : QuotaSnapshot) (inventory : Dict Text)
      (now : Time)
      → (observe_probe decimal w raw p c inventory now).1.id ≡ []
      → IsWarmed id w
      → IsWarmed id (observe_probe decimal w raw p c inventory now).0
  unfolding observe_probe
  observe_probe-IsWarmed id w raw p c inventory now t h =
      let k = trim_space raw in
      let fresh = new_epoch_evidence w.epoch p c now in
      let v = begin_on_evidence w inventory k fresh now in
      let u = observe_target v k c fresh in
      let x = observe_account u k c (reset_evidence p c now) now in
      finalize_sweep-IsWarmed id x now t (
        observe_account-IsWarmed id k u c (reset_evidence p c now) now (
          same-IsWarmed id w u
            (observe_target-accounts v k c fresh
              ∙ begin_on_evidence-accounts w inventory k fresh now)
            h))

  observe_error-IsWarmed :
      (id : Text) (w : World) (raw code : Text) (now : Time)
      → (observe_error decimal w raw code now).1.id ≡ []
      → IsWarmed id w
      → IsWarmed id (observe_error decimal w raw code now).0
  unfolding observe_error
  observe_error-IsWarmed id w raw code now t h =
      let k = trim_space raw in
      let v = fail_target w k code in
      finalize_sweep-IsWarmed id (fail_account v k code) now t
        (fail_account-IsWarmed id k code v (same-IsWarmed id w v (fail_target-accounts w k code) h))

  step-IsWarmed :
      (id : Text) (w : World) (c : Call)
      → (step decimal w c).1.id ≡ []
      → Keeps id c
      → IsWarmed id w
      → IsWarmed id (step decimal w c).0
  unfolding step send_probe
  step-IsWarmed id w (prepare inventory now) t k h =
      prepare_inventory-IsWarmed id w inventory now k h
  step-IsWarmed id w (probe raw now) t k h =
      record_probe_attempt-IsWarmed id raw w (probe_reason w.epoch raw now) now h
  step-IsWarmed id w (report raw p c inventory now) t k h =
      observe_probe-IsWarmed id w raw p c inventory now t h
  step-IsWarmed id w (fail raw code now) t k h = observe_error-IsWarmed id w raw code now t h
  step-IsWarmed id w (headers raw p c now) t k h =
      same-IsWarmed id w (begin_reset_from_headers w raw p c now).0
        (begin_reset_from_headers-accounts w raw p c now) h
  step-IsWarmed id w (use_account identities raw index now) t k h =
      mark_natural-IsWarmed id w identities raw index now h
  step-IsWarmed id w (warm identities raw epoch_id success is_blocked code now) t k h =
      rw k (record_warmup_outcome-IsWarmed id w identities raw epoch_id is_blocked code now h)
  step-IsWarmed id w (store quotas polls) t k h = h

  run-IsWarmed :
      (id : Text) (w : World) (calls : List Call)
      → All (λ (t : Transition). t.id ≡ []) (run decimal w calls).1
      → All (Keeps id) calls
      → IsWarmed id w
      → IsWarmed id (run decimal w calls).0
  unfolding run
  run-IsWarmed id w [] t k h = h
  run-IsWarmed id w (c ∷ calls) (t, ts) (k, ks) h =
      run-IsWarmed id (step decimal w c).0 calls ts ks (step-IsWarmed id w c t k h)

  -- A warmup of an account that has succeeded is not asked for again: if its success is recorded in the
  -- epoch that it was for, then after any calls that confirm no epoch, in which the inventory keeps the
  -- account and no warmup is recorded as failed, no snapshot of the account is allowed a warmup.
  pub warmup_allowance-once :
      (w : World) (identities : Dict Text) (raw epoch_id : Text) (is_blocked : Bool) (code : Text)
      (done : Time) (calls : List Call) (s : QuotaSnapshot) (poll : Poll) (now : Time)
      → (record_warmup_outcome w identities raw epoch_id true is_blocked code done).1 ≡ true
      → All
          (λ (t : Transition). t.id ≡ [])
          (run decimal
            (record_warmup_outcome w identities raw epoch_id true is_blocked code done).0
            calls).1
      → All
          (Keeps (canonical_auth_id (record { quotas = w.quotas; identities = identities }) raw []))
          calls
      → trim_space s.auth_id
        ≡ canonical_auth_id (record { quotas = w.quotas; identities = identities }) raw []
      → warmup_allowance
          (run decimal
            (record_warmup_outcome w identities raw epoch_id true is_blocked code done).0
            calls).0.epoch
          s
          poll
          now
        ≡ none
  warmup_allowance-once w identities raw epoch_id is_blocked code done calls s poll now r t k e =
      let v = (record_warmup_outcome w identities raw epoch_id true is_blocked code done).0 in
      let id = canonical_auth_id (record { quotas = w.quotas; identities = identities }) raw [] in
      warmup_allowance-IsWarmed (run decimal v calls).0 s poll now (
        rw e (
          run-IsWarmed id v calls t k
            (record_warmup_outcome-IsWarmed_self w identities raw epoch_id is_blocked code done r)))
