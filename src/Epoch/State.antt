-- ===== src/Epoch/State.antt =====
-- quota_epoch.go: the state of a quota epoch, and of the sweep of quota probes that looks for the
-- next one. A reason that only a saved file can hold is `other_reason`, and likewise the state of an
-- account. A missing poll of an account is an empty one, as it is in Go.
use cpa_codex_quota_schedule.Common.{
  ℕ, ◌+◌, ◌*◌, ◌/◌, Bool, true, false, [], ◌∷◌, Option, none, some, ltb, leb, if◌then◌else◌, Text,
  is_empty, same, trim_space, Dict, lookup, insert, delete, Time, Duration, is_zero, second, minute,
  length,
}
use cpa_codex_quota_schedule.Quota.{QuotaSnapshot}

abbrev pub sweep_window : Duration
sweep_window = 10 * minute

abbrev pub sweep_round_delay : Duration
sweep_round_delay = 45 * second

abbrev pub sweep_max_rounds : ℕ
sweep_max_rounds = 4

abbrev pub warmup_snapshot_age : Duration
warmup_snapshot_age = 10 * minute

abbrev pub reset_catchup_age : Duration
reset_catchup_age = 15 * minute

abbrev pub reset_anchor_skew : Duration
reset_anchor_skew = 15 * minute

abbrev pub pending_probe_limit : ℕ
pending_probe_limit = 3

abbrev pub pending_probe_delay : Duration
pending_probe_delay = 30 * second

pub data AccountState : Type 0 where
  pending natural warmed blocked other_state : AccountState

pub record Account : Type 0 where
  pub auth_id : Text
  pub auth_index : Text
  pub state : AccountState
  pub observed_at : Time
  pub last_usage_at : Time
  pub last_warm_epoch : Text
  pub last_warm_at : Time
  pub probe_attempts : ℕ
  pub last_probe_at : Time
  pub error : Text

pub record Target : Type 0 where
  pub auth_id : Text
  pub auth_index : Text
  pub attempted_at : Time
  pub observed_at : Time
  pub evidence : Bool
  pub evidence_reason : Text
  pub error : Text

pub data Reason : Type 0 where
  no_reason bootstrap inventory_change provider_reset other_reason : Reason

pub record Sweep : Type 0 where
  pub active : Bool
  pub reason : Reason
  pub trigger_auth_id : Text
  pub trigger_reason : Text
  pub started_at : Time
  pub deadline : Time
  pub round : ℕ
  pub round_started_at : Time
  pub next_round_at : Time
  pub completed_at : Time
  pub required : ℕ
  pub epoch_id : Text
  pub targets : Dict Target

pub record EpochState : Type 0 where
  pub id : Text
  pub sequence : ℕ  -- uint64
  pub reason : Reason
  pub confirmed_at : Time
  pub reset_at : Time
  pub accounts : Dict Account
  pub sweep : Sweep

-- What the epoch reads of a quotaPollState.
pub record Poll : Type 0 where
  pub last_usage_at : Time
  pub next_at : Time
  pub error : Text

-- The epoch with the parts of the runtime that its operations read and write.
pub record World : Type 0 where
  pub epoch : EpochState
  pub quotas : Dict QuotaSnapshot
  pub polls : Dict Poll

abbrev pub is_reset : Reason → Bool
is_reset provider_reset = true
is_reset no_reason = false
is_reset bootstrap = false
is_reset inventory_change = false
is_reset other_reason = false

abbrev pub is_inventory_change : Reason → Bool
is_inventory_change inventory_change = true
is_inventory_change no_reason = false
is_inventory_change bootstrap = false
is_inventory_change provider_reset = false
is_inventory_change other_reason = false

abbrev pub is_bootstrap : Reason → Bool
is_bootstrap bootstrap = true
is_bootstrap no_reason = false
is_bootstrap inventory_change = false
is_bootstrap provider_reset = false
is_bootstrap other_reason = false

abbrev pub is_pending_state : AccountState → Bool
is_pending_state pending = true
is_pending_state natural = false
is_pending_state warmed = false
is_pending_state blocked = false
is_pending_state other_state = false

abbrev pub empty_account : Account
empty_account = record {
  auth_id = [];
  auth_index = [];
  state = other_state;
  observed_at = 0;
  last_usage_at = 0;
  last_warm_epoch = [];
  last_warm_at = 0;
  probe_attempts = 0;
  last_probe_at = 0;
  error = [];
}

abbrev pub empty_target : Target
empty_target = record {
  auth_id = [];
  auth_index = [];
  attempted_at = 0;
  observed_at = 0;
  evidence = false;
  evidence_reason = [];
  error = [];
}

abbrev pub empty_poll : Poll
empty_poll = record { last_usage_at = 0; next_at = 0; error = [] }

abbrev pub empty_sweep : Sweep
empty_sweep = record {
  active = false;
  reason = no_reason;
  trigger_auth_id = [];
  trigger_reason = [];
  started_at = 0;
  deadline = 0;
  round = 0;
  round_started_at = 0;
  next_round_at = 0;
  completed_at = 0;
  required = 0;
  epoch_id = [];
  targets = [];
}

abbrev pub new_state : EpochState
new_state = record {
  id = [];
  sequence = 0;
  reason = no_reason;
  confirmed_at = 0;
  reset_at = 0;
  accounts = [];
  sweep = empty_sweep;
}

-- m[k] of a map whose missing values are zero.
abbrev pub or_zero {ℓ} : {A : Type ℓ} → A → Option A → A
or_zero z none = z
or_zero z (some x) = x

unfoldable pub poll_of : Dict Poll → Text → Poll
poll_of polls id = or_zero empty_poll (lookup id polls)

-- How many accounts must show a reset before it counts.
unfoldable pub quorum : ℕ → ℕ
quorum n = if leb n 1 then n else (let half = (n + 1) / 2 in if ltb half 2 then 2 else half)

abbrev pub known_state : AccountState → AccountState
known_state other_state = pending
known_state pending = pending
known_state natural = natural
known_state warmed = warmed
known_state blocked = blocked

-- The name of an entry, its key if it has none.
abbrev pub name_of : Text → Text → Text
name_of id key = let t = trim_space id in if is_empty t then trim_space key else t

unfoldable pub normalize_account : Text → Account → Dict Account → Dict Account
normalize_account key a m =
    let id = name_of a.auth_id key in
    if is_empty id
    then delete key m
    else insert id (record a { auth_id = id; state = known_state a.state })
        (if same key id then m else delete key m)

unfoldable pub normalize_accounts : Dict Account → Dict Account → Dict Account
normalize_accounts [] m = m
normalize_accounts ((key, x) ∷ rest) m =
    normalize_accounts rest (elim (lookup key m) [ none ↦ m | some a ↦ normalize_account key a m ])

unfoldable pub normalize_target : Text → Target → Dict Target → Dict Target
normalize_target key t m =
    let id = name_of t.auth_id key in
    if is_empty id
    then delete key m
    else insert id (record t { auth_id = id }) (if same key id then m else delete key m)

unfoldable pub normalize_targets : Dict Target → Dict Target → Dict Target
normalize_targets [] m = m
normalize_targets ((key, x) ∷ rest) m =
    normalize_targets rest (elim (lookup key m) [ none ↦ m | some t ↦ normalize_target key t m ])

unfoldable pub normalize_rounds : Sweep → Sweep
normalize_rounds s =
    if s.active
    then record s {
      round = if ltb s.round 1 then 1 else s.round;
      round_started_at = if is_zero s.round_started_at then s.started_at else s.round_started_at;
    }
    else s

-- A state that was read from a file.
unfoldable pub normalize_state : EpochState → EpochState
normalize_state e =
    let rounds = normalize_rounds e.sweep in
    let targets = normalize_targets e.sweep.targets e.sweep.targets in
    record e {
      accounts = normalize_accounts e.accounts e.accounts;
      sweep = record rounds {
        targets = targets;
        required =
            if ltb (length targets) rounds.required
            then quorum (length targets)
            else rounds.required;
      };
    }
