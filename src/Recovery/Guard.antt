-- ===== src/Recovery/Guard.antt =====
-- recovery_guard.go: recoveryGuard keeps one entry for each credential that must prove its
-- recovery. A method that writes returns the new map; the mutex makes each call one step.
use cpa_codex_quota_schedule.Common.{
  ℕ, ◌+◌, ◌*◌, ◌%◌, ◌^◌, Bool, true, false, not, ◌&&◌, ◌||◌, List, [], ◌∷◌, Option, none, some, ltb,
  leb, if◌then◌else◌, Text, text, is_empty, same, trim_space, Dict, lookup, insert, Time, Duration,
  is_zero, before, after, later, minute, any, all,
}
use cpa_codex_quota_schedule.Quota.{
  QuotaWindow, QuotaSnapshot, used_percent_threshold, normalize_window_class, quota_snapshot_fresh,
}

pub record RecoveryEntry : Type 0 where
  pub auth_index : Text
  pub observed_at : Time
  pub reset_at : Time
  pub ready : Bool
  pub owner : Text
  pub owner_auth_id : Text
  pub reserved_at : Time
  pub dispatched : Bool
  pub failures : ℕ
  pub retry_at : Time
  pub generation : ℕ  -- uint64
  pub owner_generation : ℕ  -- uint64

abbrev pub RecoveryGuard : Type 0
RecoveryGuard = Dict RecoveryEntry

-- x++ on a uint64.
abbrev pub next_generation : ℕ → ℕ
next_generation x = (x + 1) % 2 ^ 64

abbrev pub empty_entry : RecoveryEntry
empty_entry = record {
  auth_index = [];
  observed_at = 0;
  reset_at = 0;
  ready = false;
  owner = [];
  owner_auth_id = [];
  reserved_at = 0;
  dispatched = false;
  failures = 0;
  retry_at = 0;
  generation = 0;
  owner_generation = 0;
}

-- The first exhausted 5h window.
unfoldable pub full_window : List QuotaWindow → Time → Option QuotaWindow
full_window [] now = none
full_window (w ∷ ws) now =
    if same (normalize_window_class w.class) (text "5h")
      && leb used_percent_threshold w.used_percent
      && not (is_zero w.observed_at)
      && not (after w.observed_at now)
    then some w
    else full_window ws now

-- A replacement binding forgets that the old one was ready.
unfoldable pub rebind : Text → RecoveryEntry → RecoveryEntry
rebind index e =
    if same e.auth_index index then e else record e { auth_index = index; ready = false }

unfoldable pub exhausted : Text → QuotaWindow → Option RecoveryEntry → RecoveryEntry
exhausted index w none = record empty_entry {
  auth_index = index;
  observed_at = w.observed_at;
  reset_at = w.reset_at;
  generation = 1;
}
exhausted index w (some e) =
    let b = rebind index e in
    record b {
      observed_at = later b.observed_at w.observed_at;
      reset_at = later b.reset_at w.reset_at;
      generation = next_generation b.generation;
      ready = false;
    }

-- A new, still running 5h cycle observed after the recorded reset.
unfoldable pub proves_cycle : RecoveryEntry → Time → QuotaWindow → Bool
proves_cycle e now w =
    same (normalize_window_class w.class) (text "5h")
    && w.allowed
    && not w.limit_reached
    && ltb w.used_percent used_percent_threshold
    && not (before w.observed_at e.observed_at)
    && (is_zero e.reset_at || not (before w.observed_at e.reset_at))
    && not (is_zero w.reset_at)
    && before now w.reset_at

unfoldable pub has_room : Time → QuotaWindow → Bool
has_room now w =
    w.allowed
    && not w.limit_reached
    && ltb w.used_percent used_percent_threshold
    && (is_zero w.reset_at || before now w.reset_at)

unfoldable pub proves_recovery : QuotaSnapshot → Time → RecoveryEntry → Bool
proves_recovery s now e =
    (same s.five_hour_limit_status (text "not_reported")
      || ((is_zero e.reset_at || not (before s.refreshed_at e.reset_at))
          && any (proves_cycle e now) s.windows))
    && all (has_room now) s.windows

-- Without an exhausted window: only an entry that no dispatched request holds can become ready.
unfoldable pub observe_room :
    RecoveryGuard
    → Text
    → Text
    → QuotaSnapshot
    → Time
    → Duration
    → Option RecoveryEntry
    → RecoveryGuard
observe_room g id index s now stale none = g
observe_room g id index s now stale (some e) =
    let b = rebind index e in
    if b.dispatched
      || not (quota_snapshot_fresh s now stale)
      || not (after s.refreshed_at b.observed_at)
    then g
    else (if proves_recovery s now b then insert id (record b { ready = true }) g else g)

unfoldable pub observe : RecoveryGuard → QuotaSnapshot → Time → Duration → RecoveryGuard
observe g s now stale =
    let id = trim_space s.auth_id in
    let index = trim_space s.auth_index in
    if is_empty id || is_empty index || is_zero s.refreshed_at || after s.refreshed_at now
    then g
    else elim (full_window s.windows now) [
      | some w ↦ insert id (exhausted index w (lookup id g)) g
      | none ↦ observe_room g id index s now stale (lookup id g)
    ]

pub data Reservation : Type 0 where
  refused kept : Reservation
  claimed : RecoveryEntry → Reservation

abbrev pub reservation_lease : Duration
reservation_lease = 2 * minute

-- An undispatched reservation of another request lapses with its lease.
unfoldable pub lapse : RecoveryEntry → Text → Time → Option RecoveryEntry
lapse e request now =
    if not (is_empty e.owner) && not (same e.owner request)
    then (if e.dispatched || before now (e.reserved_at + reservation_lease)
        then none
        else some (record e { owner = [] }))
    else some e

unfoldable pub claim : RecoveryEntry → Text → Text → Time → Reservation
claim e id request now =
    if same e.owner request && not (is_empty e.owner_auth_id) && not (same e.owner_auth_id id)
    then refused
    else (if is_empty e.owner
        then claimed (record e {
          owner = request;
          owner_auth_id = id;
          reserved_at = now;
          dispatched = false;
          owner_generation = e.generation;
        })
        else kept)

unfoldable pub reserve_entry : RecoveryEntry → Text → Text → Text → Time → Reservation
reserve_entry e id index request now =
    if (not (is_empty index) && not (same e.auth_index index))
      || not e.ready
      || before now e.retry_at
      || is_empty request
    then refused
    else elim (lapse e request now) [ none ↦ refused | some e' ↦ claim e' id request now ]

abbrev pub reserve_store : RecoveryGuard → Text → Reservation → RecoveryGuard × Bool × Bool
reserve_store g id refused = (g, false, true)
reserve_store g id kept = (g, true, true)
reserve_store g id (claimed e) = (insert id e g, true, true)

-- Returns the guard, whether the request may go, and whether the credential is guarded.
unfoldable pub reserve : RecoveryGuard → Text → Text → Text → Time → RecoveryGuard × Bool × Bool
reserve g id index request now = elim (lookup id g) [
  | none ↦ (g, true, false)
  | some e ↦ reserve_store g id (reserve_entry e id index request now)
]

unfoldable pub dispatched : RecoveryGuard → Text → Text → RecoveryGuard × Bool
dispatched g id request = elim (lookup id g) [
  | none ↦ (g, true)
  | some e ↦
      if not (same e.owner request)
        || is_empty request
        || (not (is_empty e.owner_auth_id) && not (same e.owner_auth_id id))
      then (g, false)
      else (insert id (record e { dispatched = true }) g, true)
]
