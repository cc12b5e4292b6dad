-- ===== src/Epoch/Observe.antt =====
-- quota_epoch.go: what a quota probe of an account, a failed probe, the headers of a response, a use of
-- the account and a warmup do to the epoch. How package fmt writes a number is a parameter.
use cpa_codex_quota_schedule.Common.{
  ℕ, ◌-◌, Bool, true, false, not, ◌&&◌, ◌||◌, [], ◌∷◌, ◌++◌, Option, none, some, ltb, if◌then◌else◌,
  Text, text, is_empty, same, trim_space, Dict, lookup, insert, Time, is_zero, before, after, ◌==◌,
}
use cpa_codex_quota_schedule.Quota.{QuotaSnapshot}
use cpa_codex_quota_schedule.Quota.Activation.{needs_warmup}
use cpa_codex_quota_schedule.Runtime.Identity.{canonical_auth_id}
use cpa_codex_quota_schedule.Epoch.State.{
  warmup_snapshot_age, AccountState, pending, natural, warmed, blocked, other_state, Account,
  Target, provider_reset, EpochState, Poll, World, is_reset, is_pending_state,
}
use cpa_codex_quota_schedule.Epoch.Evidence.{reset_evidence, new_epoch_evidence}
use cpa_codex_quota_schedule.Epoch.Sweep.{is_held, set_sweep, begin_sweep}
use cpa_codex_quota_schedule.Epoch.Rounds.{Transition}
use cpa_codex_quota_schedule.Epoch.Confirm.{account_from_snapshot, finalize_sweep}

abbrev pub or_empty : Option Text → Text
or_empty none = []
or_empty (some t) = t

-- A sweep for another reason, or none, gives way to one that looks for a reset.
unfoldable pub begin_on_evidence : World → Dict Text → Text → Option Text → Time → World
begin_on_evidence w inventory id evidence now =
    if is_held evidence && (not w.epoch.sweep.active || not (is_reset w.epoch.sweep.reason))
    then (begin_sweep w inventory provider_reset id (or_empty evidence) now).0
    else w

abbrev pub with_evidence : Target → Option Text → Target
with_evidence t none = t
with_evidence t (some why) = record t { evidence = true; evidence_reason = why }

unfoldable pub observed_target : Target → Text → QuotaSnapshot → Option Text → Target
observed_target t id current evidence =
    with_evidence
      (record t {
        auth_id = id;
        auth_index = trim_space current.auth_index;
        observed_at = current.refreshed_at;
        error = [];
      })
      evidence

unfoldable pub observe_target : World → Text → QuotaSnapshot → Option Text → World
observe_target w id current evidence = elim (lookup id w.epoch.sweep.targets) [
  | none ↦ w
  | some t ↦ set_sweep w (record w.epoch.sweep {
    targets = insert id (observed_target t id current evidence) w.epoch.sweep.targets;
  })
]

abbrev pub is_settled : AccountState → Bool
is_settled warmed = true
is_settled blocked = true
is_settled pending = false
is_settled natural = false
is_settled other_state = false

-- The account of the snapshot, with what the epoch remembers of it.
unfoldable pub adopted_account : Account → QuotaSnapshot → Time → Account
adopted_account a current now =
    let fresh = account_from_snapshot current now in
    record fresh {
      last_usage_at = a.last_usage_at;
      last_warm_epoch = a.last_warm_epoch;
      last_warm_at = a.last_warm_at;
      probe_attempts = a.probe_attempts;
      last_probe_at = a.last_probe_at;
      state = if is_settled a.state then a.state else fresh.state;
      error = if is_settled a.state then a.error else fresh.error;
    }

-- After a reset a pending account takes only a snapshot that shows the reset or an unstarted window.
unfoldable pub can_adopt : EpochState → Account → QuotaSnapshot → Option Text → Time → Bool
can_adopt e a current evidence now =
    not (is_reset e.reason)
    || not (is_pending_state a.state)
    || is_held evidence
    || needs_warmup current now

unfoldable pub observed_account :
    EpochState → Account → QuotaSnapshot → Option Text → Time → Account
observed_account e a current evidence now =
    if can_adopt e a current evidence now
    then adopted_account a current now
    else record a { observed_at = 0; error = [] }

abbrev pub put_account : World → Text → Account → World
put_account w id a = record w { epoch = record w.epoch { accounts = insert id a w.epoch.accounts } }

unfoldable pub observe_account : World → Text → QuotaSnapshot → Option Text → Time → World
observe_account w id current evidence now = elim (lookup id w.epoch.accounts) [
  | none ↦ w
  | some a ↦
      if before current.refreshed_at w.epoch.confirmed_at
      then w
      else put_account w id (observed_account w.epoch a current evidence now)
]

unfoldable pub fail_target : World → Text → Text → World
fail_target w id code = elim (lookup id w.epoch.sweep.targets) [
  | none ↦ w
  | some t ↦ set_sweep w (record w.epoch.sweep {
    targets = insert id (record t { error = trim_space code }) w.epoch.sweep.targets;
  })
]

unfoldable pub fail_account : World → Text → Text → World
fail_account w id code = elim (lookup id w.epoch.accounts) [
  | none ↦ w
  | some a ↦
      if is_pending_state a.state && is_zero a.observed_at
      then put_account w id (record a { error = trim_space code })
      else w
]

-- The accounts of the quotas that are known, each under the index that is visited first.
unfoldable pub known_inventory : Dict QuotaSnapshot → Dict Text → Dict Text
known_inventory [] inventory = inventory
known_inventory ((key, s) ∷ quotas) inventory = known_inventory quotas (
    let id = trim_space s.auth_id in
    if is_empty id || is_held (lookup id inventory)
    then inventory
    else insert id (trim_space s.auth_index) inventory)

unfoldable pub mark_target : World → Text → Text → World
mark_target w id why = elim (lookup id w.epoch.sweep.targets) [
  | none ↦ w
  | some t ↦ set_sweep w (record w.epoch.sweep {
    targets = insert id (record t { evidence = true; evidence_reason = why }) w.epoch.sweep.targets;
  })
]

unfoldable pub begin_reset_from_headers :
    World → Text → QuotaSnapshot → QuotaSnapshot → Time → World × Bool
begin_reset_from_headers w raw previous current now =
    elim (new_epoch_evidence w.epoch previous current now) [
      | none ↦ (w, false)
      | some why ↦
          let (v, begun) =
            begin_sweep w (known_inventory w.quotas []) provider_reset raw (text "header_" ++ why)
              now in
          if begun
          then (mark_target v (trim_space raw) (text "header_" ++ why), true)
          else (v, false)
    ]

-- A request has used the account.
unfoldable pub used_account : Account → Time → Account
used_account a now = record a {
  state = if is_pending_state a.state then natural else a.state;
  error = if is_pending_state a.state then [] else a.error;
  last_usage_at = if after now a.last_usage_at then now else a.last_usage_at;
}

unfoldable pub mark_natural : World → Dict Text → Text → Text → Time → World × Bool
mark_natural w identities raw index now =
    let id = canonical_auth_id (record { quotas = w.quotas; identities = identities }) raw index in
    elim (lookup id w.epoch.accounts) [
      | none ↦ (w, false)
      | some a ↦
          if is_empty w.epoch.id
          then (w, false)
          else (put_account w id (used_account a now), is_pending_state a.state)
    ]

unfoldable pub warmed_account : Account → Text → Bool → Bool → Text → Time → Account
warmed_account a epoch_id success is_blocked code now =
    if success
    then record a { state = warmed; last_warm_epoch = epoch_id; last_warm_at = now; error = [] }
    else record a { state = if is_blocked then blocked else pending; error = trim_space code }

unfoldable pub record_warmup_outcome :
    World → Dict Text → Text → Text → Bool → Bool → Text → Time → World × Bool
record_warmup_outcome w identities raw epoch_id success is_blocked code now =
    let id = canonical_auth_id (record { quotas = w.quotas; identities = identities }) raw [] in
    if is_empty epoch_id || not (same epoch_id w.epoch.id)
    then (w, false)
    else elim (lookup id w.epoch.accounts) [
      | none ↦ (w, false)
      | some a ↦ (put_account w id (warmed_account a epoch_id success is_blocked code now), true)
    ]

-- Does the account wait for a warmup, and is the snapshot the one that showed it?
unfoldable pub allows_warmup : Account → QuotaSnapshot → Poll → Time → Bool
allows_warmup a s poll now =
    is_pending_state a.state
    && not (is_zero a.observed_at)
    && same a.auth_index (trim_space s.auth_index)
    && a.observed_at == s.refreshed_at
    && not (before now a.observed_at)
    && not (ltb warmup_snapshot_age (now - a.observed_at))
    && is_empty poll.error
    && not (after poll.last_usage_at a.observed_at)

-- The epoch that a warmup of the account is for.
unfoldable pub warmup_allowance : EpochState → QuotaSnapshot → Poll → Time → Option Text
warmup_allowance e s poll now = elim (lookup (trim_space s.auth_id) e.accounts) [
  | none ↦ none
  | some a ↦ if is_empty e.id || not (allows_warmup a s poll now) then none else some e.id
]

unfoldable pub has_pending : Dict Account → Bool
has_pending [] = false
has_pending ((id, a) ∷ accounts) = is_pending_state a.state || has_pending accounts

module _ (decimal : ℕ → Text) where
  unfoldable pub observe_probe :
      World → Text → QuotaSnapshot → QuotaSnapshot → Dict Text → Time → World × Transition
  observe_probe w raw previous current inventory now =
      let id = trim_space raw in
      let evidence = reset_evidence previous current now in
      let fresh = new_epoch_evidence w.epoch previous current now in
      let begun = begin_on_evidence w inventory id fresh now in
      let observed = observe_target begun id current fresh in
      finalize_sweep decimal (observe_account observed id current evidence now) now

  unfoldable pub observe_error : World → Text → Text → Time → World × Transition
  observe_error w raw code now =
      let id = trim_space raw in
      finalize_sweep decimal (fail_account (fail_target w id code) id code) now
