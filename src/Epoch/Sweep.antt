-- ===== src/Epoch/Sweep.antt =====
-- quota_epoch.go: how a sweep begins, and which probes it asks for. The inventory of the host is seen
-- as the auth index of each account.
use cpa_codex_quota_schedule.Common.{
  ◌+◌, ◌-◌, Bool, true, false, not, ◌&&◌, ◌||◌, [], ◌∷◌, Option, none, some, ltb, leb, ◌==◌,
  if◌then◌else◌, Text, text, is_empty, contains, trim_space, Dict, lookup, insert, revise, Time,
  is_zero, before, length,
}
use cpa_codex_quota_schedule.Epoch.State.{
  sweep_window, warmup_snapshot_age, reset_catchup_age, pending_probe_limit, pending_probe_delay,
  Account, Target, Reason, bootstrap, inventory_change, provider_reset, Sweep, EpochState, Poll,
  World, is_reset, is_pending_state, empty_target, empty_sweep, or_zero, poll_of, quorum,
}

abbrev pub is_held {ℓ} : {A : Type ℓ} → Option A → Bool
is_held none = false
is_held (some x) = true

unfoldable pub start_again : Target → Target
start_again t = record t {
  attempted_at = 0;
  observed_at = 0;
  evidence = false;
  evidence_reason = [];
  error = [];
}

-- A sweep that runs for another reason looks for a reset from now on.
unfoldable pub escalate : Sweep → Text → Text → Time → Sweep
escalate s auth_id trigger now = record s {
  reason = provider_reset;
  trigger_auth_id = trim_space auth_id;
  trigger_reason = trim_space trigger;
  started_at = now;
  deadline = now + sweep_window;
  round = 1;
  round_started_at = now;
  next_round_at = 0;
  epoch_id = [];
  targets = revise (λ id t. some (start_again t)) s.targets;
}

unfoldable pub fresh_sweep : Reason → Text → Text → Time → Sweep
fresh_sweep reason auth_id trigger now = record empty_sweep {
  active = true;
  reason = reason;
  trigger_auth_id = trim_space auth_id;
  trigger_reason = trim_space trigger;
  started_at = now;
  deadline = now + sweep_window;
  round = 1;
  round_started_at = now;
}

abbrev pub escalates : Sweep → Reason → Bool
escalates s reason = is_reset reason && not (is_reset s.reason)

-- The sweep that goes on, and whether every account is to be probed now.
unfoldable pub started_sweep : Sweep → Reason → Text → Text → Time → Sweep × Bool
started_sweep s reason auth_id trigger now =
    if s.active
    then (if escalates s reason then (escalate s auth_id trigger now, true) else (s, false))
    else (fresh_sweep reason auth_id trigger now, true)

abbrev pub in_inventory {ℓ} : {A : Type ℓ} → Dict Text → Text → A → Option A
in_inventory inventory id x = if is_held (lookup id inventory) then some x else none

-- A credential that was refused keeps its wait.
unfoldable pub probe_now : Poll → Poll
probe_now p =
    if not (contains p.error (text "401")) && not (contains p.error (text "403"))
    then record p { next_at = 0 }
    else p

abbrev pub is_refused : Poll → Bool
is_refused p = contains p.error (text "401") || contains p.error (text "403")

unfoldable pub add_target : Dict Target → Text → Text → Dict Target
add_target targets id index =
    insert id
      (record (or_zero empty_target (lookup id targets)) {
        auth_id = id;
        auth_index = trim_space index;
      })
      targets

-- Is the account to be probed: it has no target yet, or all are probed?
abbrev pub asks : Bool → Dict Target → Text → Bool
asks force targets id =
    force || is_empty (trim_space (or_zero empty_target (lookup id targets)).auth_id)

unfoldable pub add_targets : Dict Text → Bool → Dict Target → Dict Poll → Dict Target × Dict Poll
add_targets [] force targets polls = (targets, polls)
add_targets ((id, index) ∷ inventory) force targets polls =
    add_targets inventory force (add_target targets id index) (
      if asks force targets id && not (is_refused (poll_of polls id))
      then insert id (probe_now (poll_of polls id)) polls
      else polls)

abbrev pub set_sweep : World → Sweep → World
set_sweep w s = record w { epoch = record w.epoch { sweep = s } }

-- Returns false only for an empty inventory.
unfoldable pub begin_sweep : World → Dict Text → Reason → Text → Text → Time → World × Bool
begin_sweep w inventory reason auth_id trigger now =
    let (sweep, force) = started_sweep w.epoch.sweep reason auth_id trigger now in
    let (targets, polls) =
      add_targets inventory force (revise (in_inventory inventory) sweep.targets) w.polls in
    if length inventory == 0 then (w, false) else (
      record (set_sweep w
          (record sweep { targets = targets; required = quorum (length targets) })) {
            polls = polls;
          },
      true,
    )

unfoldable pub misses : Dict Account → Dict Text → Bool
misses accounts [] = false
misses accounts ((id, index) ∷ inventory) =
    not (is_held (lookup id accounts)) || misses accounts inventory

unfoldable pub prepare_inventory : World → Dict Text → Time → World × Bool
prepare_inventory w inventory now =
    let v = record w {
      epoch = record w.epoch { accounts = revise (in_inventory inventory) w.epoch.accounts };
    } in
    let s = w.epoch.sweep in
    if is_empty w.epoch.id && not s.active
    then begin_sweep v inventory bootstrap [] [] now
    else (if s.active
        then begin_sweep v inventory s.reason s.trigger_auth_id s.trigger_reason now
        else (if misses v.epoch.accounts inventory
            then begin_sweep v inventory inventory_change [] [] now
            else (v, false)))

pub data ProbeReason : Type 0 where
  no_probe epoch_reset_sweep epoch_bootstrap epoch_pending : ProbeReason

abbrev pub round_start : Sweep → Time
round_start s = if is_zero s.round_started_at then s.started_at else s.round_started_at

-- The target has neither shown a reset nor been asked in this round.
unfoldable pub is_due : Time → Target → Bool
is_due start t = not t.evidence && (is_zero t.attempted_at || before t.attempted_at start)

abbrev pub is_due_target : Time → Option Target → Bool
is_due_target start none = false
is_due_target start (some t) = is_due start t

-- Does the sweep ask for a probe of the account?
unfoldable pub sweep_asks : Sweep → Text → Time → Bool
sweep_asks s id now =
    s.active
    && before now s.deadline
    && (is_zero s.next_round_at || not (before now s.next_round_at))
    && is_due_target (round_start s) (lookup id s.targets)

abbrev pub needs_observation : Account → Time → Bool
needs_observation a now =
    is_zero a.observed_at
    || before now a.observed_at
    || ltb warmup_snapshot_age (now - a.observed_at)

-- One more probe, some time after a reset, for an account that has used its probes up.
abbrev pub may_catch_up : EpochState → Account → Time → Bool
may_catch_up e a now =
    is_reset e.reason
    && not (is_zero e.confirmed_at)
    && not (before now e.confirmed_at)
    && leb (now - e.confirmed_at) reset_catchup_age
    && not (is_zero a.last_probe_at)
    && not (before now (a.last_probe_at + warmup_snapshot_age))

unfoldable pub asks_pending : EpochState → Time → Option Account → Bool
asks_pending e now none = false
asks_pending e now (some a) =
    not (is_empty e.id)
    && is_pending_state a.state
    && needs_observation a now
    && (ltb a.probe_attempts pending_probe_limit || may_catch_up e a now)
    && (is_zero a.last_probe_at || not (before now (a.last_probe_at + pending_probe_delay)))

unfoldable pub probe_reason : EpochState → Text → Time → ProbeReason
probe_reason e raw now =
    let id = trim_space raw in
    if sweep_asks e.sweep id now
    then (if is_reset e.sweep.reason then epoch_reset_sweep else epoch_bootstrap)
    else (if asks_pending e now (lookup id e.accounts) then epoch_pending else no_probe)

unfoldable pub attempt_target : EpochState → Text → Time → EpochState
attempt_target e id now = elim (lookup id e.sweep.targets) [
  | none ↦ e
  | some t ↦ record e {
    sweep = record e.sweep {
      targets = insert id (record t { attempted_at = now; error = [] }) e.sweep.targets;
    };
  }
]

unfoldable pub attempt_account : EpochState → Text → Time → EpochState
attempt_account e id now = elim (lookup id e.accounts) [
  | none ↦ e
  | some a ↦
      if is_pending_state a.state && needs_observation a now
      then record e {
        accounts =
            insert id (record a { probe_attempts = a.probe_attempts + 1; last_probe_at = now })
              e.accounts;
      }
      else e
]

unfoldable pub record_probe_attempt : EpochState → Text → ProbeReason → Time → EpochState
record_probe_attempt e raw epoch_reset_sweep now = attempt_target e (trim_space raw) now
record_probe_attempt e raw epoch_bootstrap now = attempt_target e (trim_space raw) now
record_probe_attempt e raw epoch_pending now = attempt_account e (trim_space raw) now
record_probe_attempt e raw no_probe now = e
