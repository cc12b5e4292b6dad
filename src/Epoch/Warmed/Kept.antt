-- ===== src/Epoch/Warmed/Kept.antt =====
-- quota_epoch.go: what the operations on the accounts and the targets of an epoch leave of an account
-- that has been warmed up.
use cpa_codex_quota_schedule.Common.{
  Bool, true, [], Option, none, some, ◌≡◌, refl, ◌∙◌, arith, inl, inr, ◌++◌, text,
  lookup-insert_self, ◌&&◌, ◌||◌, ◌+◌, Bool-cases, Option-cases, Text, text_discrete, Dict, lookup,
  lookup-insert, revise, Time, trim_space, is_empty, before, same, is_zero, not,
}
use cpa_codex_quota_schedule.Quota.{QuotaSnapshot}
use cpa_codex_quota_schedule.Runtime.Identity.{canonical_auth_id}
use cpa_codex_quota_schedule.Epoch.State.{
  warmed, is_pending_state, bootstrap, inventory_change, provider_reset, Account, Reason,
  EpochState, Poll, World,
}
use cpa_codex_quota_schedule.Epoch.Sweep.{
  needs_observation, begin_sweep, in_inventory, prepare_inventory, ProbeReason, no_probe,
  epoch_reset_sweep, epoch_bootstrap, epoch_pending, record_probe_attempt, attempt_target,
  attempt_account,
}
use cpa_codex_quota_schedule.Epoch.Inventory.{IsHeld, lookup-in_inventory}
use cpa_codex_quota_schedule.Epoch.Observe.{
  known_inventory, or_empty, put_account, observe_target, observe_account, observed_account,
  adopted_account, fail_target, fail_account, mark_target, begin_on_evidence,
  begin_reset_from_headers, used_account, mark_natural, record_warmup_outcome, warmed_account,
  warmup_allowance, allows_warmup,
}
use cpa_codex_quota_schedule.Epoch.Evidence.{new_epoch_evidence}

-- The epoch holds the account as warmed up.
abbrev pub IsWarmed : Text → World → Type 0
IsWarmed id w = (a : Account) × (lookup id w.epoch.accounts ≡ some a) × (a.state ≡ warmed)

pub same-IsWarmed :
    (id : Text) (w v : World) → v.epoch.accounts ≡ w.epoch.accounts → IsWarmed id w → IsWarmed id v
same-IsWarmed id w v e (a, l, s) = (a, rw e l, s)

put_account-IsWarmed :
    (id k : Text) (w : World) (a b : Account)
    → lookup k w.epoch.accounts ≡ some a
    → (a.state ≡ warmed → b.state ≡ warmed)
    → IsWarmed id w
    → IsWarmed id (put_account w k b)
put_account-IsWarmed id k w a b l h (c, m, s) = elim (text_discrete k id) [
  | yes e ↦ (b, ground (arith, lookup-insert k id b w.epoch.accounts), h (ground arith))
  | no n ↦ (c, ground (arith, lookup-insert k id b w.epoch.accounts), s)
]

pub begin_sweep-accounts :
    (w : World) (inventory : Dict Text) (why : Reason) (id trigger : Text) (now : Time)
    → (begin_sweep w inventory why id trigger now).0.epoch.accounts ≡ w.epoch.accounts
unfolding begin_sweep
begin_sweep-accounts w inventory why id trigger now = ground arith

pub observe_target-accounts :
    (w : World) (id : Text) (s : QuotaSnapshot) (o : Option Text)
    → (observe_target w id s o).epoch.accounts ≡ w.epoch.accounts
unfolding observe_target
observe_target-accounts w id s o = ground arith

pub fail_target-accounts :
    (w : World) (id code : Text) → (fail_target w id code).epoch.accounts ≡ w.epoch.accounts
unfolding fail_target
fail_target-accounts w id code = ground arith

mark_target-accounts :
    (w : World) (id code : Text) → (mark_target w id code).epoch.accounts ≡ w.epoch.accounts
unfolding mark_target
mark_target-accounts w id code = ground arith

pub begin_on_evidence-accounts :
    (w : World) (inventory : Dict Text) (id : Text) (o : Option Text) (now : Time)
    → (begin_on_evidence w inventory id o now).epoch.accounts ≡ w.epoch.accounts
unfolding begin_on_evidence
begin_on_evidence-accounts w inventory id o now =
    ground (arith, begin_sweep-accounts w inventory provider_reset id (or_empty o) now)

observed_account-warmed :
    (e : EpochState) (a : Account) (s : QuotaSnapshot) (o : Option Text) (now : Time)
    → a.state ≡ warmed
    → (observed_account e a s o now).state ≡ warmed
unfolding observed_account adopted_account
observed_account-warmed e a s o now h = ground arith

pub observe_account-IsWarmed :
    (id k : Text) (w : World) (s : QuotaSnapshot) (o : Option Text) (now : Time)
    → IsWarmed id w
    → IsWarmed id (observe_account w k s o now)
unfolding observe_account
observe_account-IsWarmed id k w s o now h = elim (Option-cases (lookup k w.epoch.accounts)) [
  | inl n ↦ rw (n, observe_account) h
  | inr (a, l) ↦ elim (Bool-cases (before s.refreshed_at w.epoch.confirmed_at)) [
    | inl b ↦ rw (l, b, observe_account) h
    | inr b ↦
        rw (l, b, observe_account)
          (put_account-IsWarmed id k w a (observed_account w.epoch a s o now) l
            (λ q. observed_account-warmed w.epoch a s o now q) h)
  ]
]

pub fail_account-IsWarmed :
    (id k code : Text) (w : World) → IsWarmed id w → IsWarmed id (fail_account w k code)
unfolding fail_account
fail_account-IsWarmed id k code w h = elim (Option-cases (lookup k w.epoch.accounts)) [
  | inl n ↦ rw (n, fail_account) h
  | inr (a, l) ↦ elim (Bool-cases (is_pending_state a.state && is_zero a.observed_at)) [
    | inr b ↦ rw (l, b, fail_account) h
    | inl b ↦
        rw (l, b, fail_account)
          (put_account-IsWarmed id k w a (record a { error = trim_space code }) l (λ q. q) h)
  ]
]

pub mark_natural-IsWarmed :
    (id : Text) (w : World) (identities : Dict Text) (raw index : Text) (now : Time)
    → IsWarmed id w
    → IsWarmed id (mark_natural w identities raw index now).0
unfolding mark_natural used_account
mark_natural-IsWarmed id w identities raw index now h =
    let k = canonical_auth_id (record { quotas = w.quotas; identities = identities }) raw index in
    elim (Option-cases (lookup k w.epoch.accounts)) [
      | inl n ↦ rw (n, mark_natural) h
      | inr (a, l) ↦ elim (Bool-cases (is_empty w.epoch.id)) [
        | inl b ↦ rw (l, b, mark_natural) h
        | inr b ↦
            rw (l, b, mark_natural)
              (put_account-IsWarmed id k w a (used_account a now) l (λ q. ground (arith, q)) h)
      ]
    ]

pub record_warmup_outcome-IsWarmed :
    (id : Text) (w : World) (identities : Dict Text) (raw epoch_id : Text) (is_blocked : Bool)
    (code : Text) (now : Time)
    → IsWarmed id w
    → IsWarmed id (record_warmup_outcome w identities raw epoch_id true is_blocked code now).0
unfolding record_warmup_outcome
record_warmup_outcome-IsWarmed id w identities raw epoch_id is_blocked code now h =
    let k = canonical_auth_id (record { quotas = w.quotas; identities = identities }) raw [] in
    elim (Bool-cases (is_empty epoch_id || not (same epoch_id w.epoch.id))) [
      | inl b ↦ rw (b, record_warmup_outcome) h
      | inr b ↦ elim (Option-cases (lookup k w.epoch.accounts)) [
        | inl n ↦ rw (b, n, record_warmup_outcome) h
        | inr (a, l) ↦
            rw (b, l, record_warmup_outcome)
              (put_account-IsWarmed id k w a (warmed_account a epoch_id true is_blocked code now) l
                (λ q. unfold warmed_account in refl) h)
      ]
    ]

attempt_account-IsWarmed :
    (id k : Text) (w : World) (now : Time)
    → IsWarmed id w
    → IsWarmed id (record w { epoch = attempt_account w.epoch k now })
unfolding attempt_account
attempt_account-IsWarmed id k w now h = elim (Option-cases (lookup k w.epoch.accounts)) [
  | inl n ↦ rw (n, attempt_account) h
  | inr (a, l) ↦ elim (Bool-cases (is_pending_state a.state && needs_observation a now)) [
    | inr b ↦ rw (l, b, attempt_account) h
    | inl b ↦
        rw (l, b, attempt_account)
          (put_account-IsWarmed id k w a
            (record a { probe_attempts = a.probe_attempts + 1; last_probe_at = now }) l (λ q. q) h)
  ]
]

attempt_target-accounts :
    (e : EpochState) (id : Text) (now : Time) → (attempt_target e id now).accounts ≡ e.accounts
unfolding attempt_target
attempt_target-accounts e id now = ground arith

pub record_probe_attempt-IsWarmed :
    (id raw : Text) (w : World) (why : ProbeReason) (now : Time)
    → IsWarmed id w
    → IsWarmed id (record w { epoch = record_probe_attempt w.epoch raw why now })
unfolding record_probe_attempt
record_probe_attempt-IsWarmed id raw w no_probe now h = h
record_probe_attempt-IsWarmed id raw w epoch_reset_sweep now (a, l, s) =
    (a, rw (attempt_target-accounts w.epoch (trim_space raw) now) l, s)
record_probe_attempt-IsWarmed id raw w epoch_bootstrap now (a, l, s) =
    (a, rw (attempt_target-accounts w.epoch (trim_space raw) now) l, s)
record_probe_attempt-IsWarmed id raw w epoch_pending now h =
    attempt_account-IsWarmed id (trim_space raw) w now h

pub prepare_inventory-IsWarmed :
    (id : Text) (w : World) (inventory : Dict Text) (now : Time)
    → IsHeld id inventory
    → IsWarmed id w
    → IsWarmed id (prepare_inventory w inventory now).0
unfolding prepare_inventory
prepare_inventory-IsWarmed id w inventory now i (a, l, s) =
    let k : lookup id (revise (in_inventory inventory) w.epoch.accounts) ≡ some a =
      lookup-in_inventory id inventory w.epoch.accounts i ∙ l in
    let v = record w {
      epoch = record w.epoch { accounts = revise (in_inventory inventory) w.epoch.accounts };
    } in
    let sw = w.epoch.sweep in
    let x = begin_sweep-accounts v inventory bootstrap [] [] now in
    let y = begin_sweep-accounts v inventory sw.reason sw.trigger_auth_id sw.trigger_reason now in
    let z = begin_sweep-accounts v inventory inventory_change [] [] now in
    (a, ground (arith, x, y, z, k), s)

pub begin_reset_from_headers-accounts :
    (w : World) (raw : Text) (p c : QuotaSnapshot) (now : Time)
    → (begin_reset_from_headers w raw p c now).0.epoch.accounts ≡ w.epoch.accounts
unfolding begin_reset_from_headers
begin_reset_from_headers-accounts w raw p c now =
    elim (Option-cases (new_epoch_evidence w.epoch p c now)) [
      | inl n ↦ rw (n, begin_reset_from_headers) refl
      | inr (why, e) ↦
          let b =
            begin_sweep w (known_inventory w.quotas []) provider_reset raw (text "header_" ++ why)
              now in
          rw (e, begin_reset_from_headers)
            (ground (
              arith,
              begin_sweep-accounts w (known_inventory w.quotas []) provider_reset raw
                  (text "header_" ++ why) now,
              mark_target-accounts b.0 (trim_space raw) (text "header_" ++ why),
            ))
    ]

pub record_warmup_outcome-IsWarmed_self :
    (w : World) (identities : Dict Text) (raw epoch_id : Text) (is_blocked : Bool) (code : Text)
    (now : Time)
    → (record_warmup_outcome w identities raw epoch_id true is_blocked code now).1 ≡ true
    → IsWarmed
        (canonical_auth_id (record { quotas = w.quotas; identities = identities }) raw [])
        (record_warmup_outcome w identities raw epoch_id true is_blocked code now).0
unfolding record_warmup_outcome
record_warmup_outcome-IsWarmed_self w identities raw epoch_id is_blocked code now r =
    let k = canonical_auth_id (record { quotas = w.quotas; identities = identities }) raw [] in
    elim (Bool-cases (is_empty epoch_id || not (same epoch_id w.epoch.id))) [
      | inl b ↦ absurd (ground (arith, b, r))
      | inr b ↦ elim (Option-cases (lookup k w.epoch.accounts)) [
        | inl n ↦ absurd (ground (arith, b, r, n))
        | inr (a, l) ↦
            let x = warmed_account a epoch_id true is_blocked code now in
            rw (b, l, record_warmup_outcome)
              (x, lookup-insert_self k x w.epoch.accounts, unfold warmed_account in refl)
      ]
    ]

pub warmup_allowance-IsWarmed :
    (w : World) (s : QuotaSnapshot) (poll : Poll) (now : Time)
    → IsWarmed (trim_space s.auth_id) w
    → warmup_allowance w.epoch s poll now ≡ none
unfolding warmup_allowance allows_warmup
warmup_allowance-IsWarmed w s poll now (a, l, h) = ground arith
