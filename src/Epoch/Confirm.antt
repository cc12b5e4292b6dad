-- ===== src/Epoch/Confirm.antt =====
-- quota_epoch.go, with adqEpochID of adq_pbs.go: the confirmation of an epoch. How package fmt writes a number is a parameter.
use cpa_codex_quota_schedule.Common.{
  ℕ, zero, suc, ◌+◌, ◌-◌, ◌/◌, ◌%◌, ◌^◌, Bool, not, ◌&&◌, ◌||◌, List, [], ◌∷◌, ◌++◌, Option, none,
  some, ltb, leb, ◌==◌, if◌then◌else◌, Text, text, is_empty, same, trim_space, Dict, lookup, insert,
  Time, is_zero, before, second, length,
}
use cpa_codex_quota_schedule.Quota.{QuotaWindow, QuotaSnapshot}
use cpa_codex_quota_schedule.Quota.Activation.{needs_warmup}
use cpa_codex_quota_schedule.Epoch.State.{
  pending, natural, Account, Target, Reason, bootstrap, provider_reset, Sweep, EpochState, World,
  is_reset, is_inventory_change, is_bootstrap, empty_account, poll_of,
}
use cpa_codex_quota_schedule.Epoch.Evidence.{weekly_window}
use cpa_codex_quota_schedule.Epoch.Sweep.{is_held}
use cpa_codex_quota_schedule.Epoch.Rounds.{Transition, no_transition, sweep_counts, settle_sweep}

unfoldable pub account_from_snapshot : QuotaSnapshot → Time → Account
account_from_snapshot s now = record empty_account {
  auth_id = trim_space s.auth_id;
  auth_index = trim_space s.auth_index;
  observed_at = s.refreshed_at;
  state = if needs_warmup s now then pending else natural;
}

abbrev pub reset_time : Option QuotaWindow → List Time
reset_time none = []
reset_time (some w) = if is_zero w.reset_at then [] else w.reset_at ∷ []

abbrev pub snapshot_reset : Option QuotaSnapshot → List Time
snapshot_reset none = []
snapshot_reset (some s) = reset_time (weekly_window s)

unfoldable pub reset_times : Dict QuotaSnapshot → Bool → Dict Target → List Time
reset_times quotas evidence_only [] = []
reset_times quotas evidence_only ((id, t) ∷ targets) =
    let rest = reset_times quotas evidence_only targets in
    if is_zero t.observed_at || (evidence_only && not t.evidence)
    then rest
    else snapshot_reset (lookup id quotas) ++ rest

unfoldable pub insert_time : Time → List Time → List Time
insert_time t [] = t ∷ []
insert_time t (u ∷ us) = let rest = insert_time t us in if before u t then u ∷ rest else t ∷ u ∷ us

unfoldable pub sort_times : List Time → List Time
sort_times [] = []
sort_times (t ∷ ts) = insert_time t (sort_times ts)

-- The zero time past the end.
unfoldable pub time_at : ℕ → List Time → Time
time_at n [] = 0
time_at zero (t ∷ ts) = t
time_at (suc n) (t ∷ ts) = time_at n ts

unfoldable pub median_reset : Dict QuotaSnapshot → Dict Target → Bool → Time
median_reset quotas targets evidence_only =
    let times = sort_times (reset_times quotas evidence_only targets) in
    time_at (length times / 2) times

-- Unix seconds; an instant before 1970 is 0.
abbrev pub unix_seconds : Time → ℕ
unix_seconds t = t / second - 62_135_596_800

-- The account before the usage since the start of the sweep is known.
unfoldable pub swept_account : World → Reason → Text → Target → Time → Account
swept_account w reason id t now =
    let blank = record empty_account { auth_id = id; auth_index = t.auth_index; state = pending } in
    elim (lookup id w.quotas) [
      | none ↦ blank
      | some s ↦
          if is_zero t.observed_at || before t.observed_at w.epoch.sweep.started_at
          then blank
          else (if not (is_reset reason) || t.evidence
              then account_from_snapshot s now
              else (if needs_warmup s now
                  then record blank { observed_at = s.refreshed_at }
                  else blank))
    ]

unfoldable pub confirmed_account : World → Reason → Text → Target → Time → Account
confirmed_account w reason id t now =
    let a = swept_account w reason id t now in
    let poll = poll_of w.polls id in
    if not (is_zero poll.last_usage_at) && not (before poll.last_usage_at w.epoch.sweep.started_at)
    then record a { state = natural; last_usage_at = poll.last_usage_at; error = [] }
    else a

unfoldable pub confirmed_accounts : World → Reason → Dict Target → Time → Dict Account
confirmed_accounts w why [] now = []
confirmed_accounts w why ((id, t) ∷ targets) now =
    (id, confirmed_account w why id t now) ∷ confirmed_accounts w why targets now

-- The accounts that the epoch does not know yet.
unfoldable pub adopt_accounts : World → Dict Target → Time → Dict Account → Dict Account
adopt_accounts w [] now accounts = accounts
adopt_accounts w ((id, t) ∷ targets) now accounts = adopt_accounts w targets now (
    if is_held (lookup id accounts) || is_zero t.observed_at
    then accounts
    else elim (lookup id w.quotas) [
      | none ↦ accounts
      | some s ↦ insert id (account_from_snapshot s now) accounts
    ])

abbrev pub has_quorum : Sweep → ℕ → Bool
has_quorum s evidence =
    is_reset s.reason && is_empty s.epoch_id && ltb 0 s.required && leb s.required evidence

abbrev pub is_first_epoch : EpochState → ℕ → Time → Bool
is_first_epoch e observed now =
    (is_bootstrap e.sweep.reason || is_inventory_change e.sweep.reason)
    && is_empty e.id
    && ltb 0 observed
    && (observed == length e.sweep.targets || not (before now e.sweep.deadline))

module _ (decimal : ℕ → Text) where
  -- adqEpochID.
  unfoldable pub adq_epoch_id : Time → Time → Text
  adq_epoch_id reset_at fallback =
      let t = if is_zero reset_at then fallback else reset_at in
      if is_zero t then text "epoch-unknown" else text "week-" ++ decimal (unix_seconds t / 60)

  -- An id that the last epoch does not have.
  unfoldable pub next_id : EpochState → Time → Time → Text
  next_id e reset_at now =
      let id = adq_epoch_id reset_at now in
      if same id e.id then id ++ text "-" ++ decimal ((e.sequence + 1) % 2 ^ 64) else id

  unfoldable pub confirm : World → Reason → Time → World × Transition
  confirm w reason now =
      let e = w.epoch in
      let reset_at = median_reset w.quotas e.sweep.targets (is_reset reason) in
      let id = next_id e reset_at now in
      (
        record w {
          epoch = record {
            id = id;
            sequence = (e.sequence + 1) % 2 ^ 64;
            reason = reason;
            confirmed_at = now;
            reset_at = reset_at;
            accounts = confirmed_accounts w reason e.sweep.targets now;
            sweep = record e.sweep { epoch_id = id };
          };
        },
        record { id = id; reason = reason },
      )

  -- What the observations of the sweep decide.
  unfoldable pub decide_sweep : World → Time → World × Transition
  decide_sweep w now =
      let s = w.epoch.sweep in
      let (observed, evidence) = sweep_counts s.started_at s.targets in
      if has_quorum s evidence
      then confirm w provider_reset now
      else (if is_first_epoch w.epoch observed now
          then confirm w bootstrap now
          else (if is_inventory_change s.reason && not (is_empty w.epoch.id)
              then (
                record w {
                  epoch = record w.epoch {
                    accounts = adopt_accounts w s.targets now w.epoch.accounts;
                  };
                },
                no_transition,
              )
              else (w, no_transition)))

  unfoldable pub finalize_sweep : World → Time → World × Transition
  finalize_sweep w now =
      let (v, t) = decide_sweep w now in
      if w.epoch.sweep.active then (settle_sweep v t now, t) else (w, no_transition)
