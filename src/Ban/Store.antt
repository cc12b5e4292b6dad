-- ===== src/Ban/Store.antt =====
-- main.go: the methods of banState. A method that writes returns the new store; the mutex makes
-- each call one step. The statistics do not reach the width of their words.
use cpa_codex_quota_schedule.Common.{
  ℕ, ◌+◌, ◌*◌, Bool, true, false, not, ◌&&◌, ◌||◌, [], Option, none, some, ltb, ◌==◌, if◌then◌else◌,
  Text, is_empty, same, trim_space, Dict, lookup, insert, Time, Duration, is_zero, before, after,
  later, minute, length,
}
use cpa_codex_quota_schedule.Recovery.Guard.{next_generation}
use cpa_codex_quota_schedule.Recovery.Retry.{recovery_retry_delay}
use cpa_codex_quota_schedule.Ban.Entry.{
  cooldown, half_open, BanEntry, is_half_open, is_quota, is_probation, normalize_ban_entry,
  ban_entry_disposition, is_probe_ready, probe_request_matches,
}

pub record BanState : Type 0 where
  pub bans : Dict BanEntry
  pub total_429s : ℕ
  pub probation_429s : ℕ
  pub probe_starts : ℕ
  pub probe_successes : ℕ
  pub probe_failures : ℕ

-- s.bans[authID] = entry.
abbrev pub put : BanState → Text → BanEntry → BanState
put s id e = record s { bans = insert id e s.bans }

abbrev pub normalized : Option BanEntry → Option BanEntry
normalized none = none
normalized (some e) = some (normalize_ban_entry e)

unfoldable pub lookup_ban : BanState → Text → Option BanEntry
lookup_ban s id = normalized (lookup (trim_space id) s.bans)

unfoldable pub count : BanState → ℕ
count s = length s.bans

-- An owned probe in flight keeps its lease through a 429.
unfoldable pub keep_lease : BanEntry → BanEntry → BanEntry
keep_lease previous e =
    if is_half_open previous.phase && not (is_empty previous.probe_owner)
    then record e {
      phase = previous.phase;
      probe_owner = previous.probe_owner;
      probe_started_at = previous.probe_started_at;
      probe_lease_until = previous.probe_lease_until;
      probe_generation = previous.probe_generation;
      probe_dispatched = previous.probe_dispatched;
    }
    else e

-- A repeated 429 does not shorten a known cooldown.
unfoldable pub keep_reset : BanEntry → BanEntry → BanEntry
keep_reset previous e =
    if not previous.provisional && after previous.reset_at e.reset_at
    then (let longer = record e { reset_at = previous.reset_at } in
        if is_quota previous.kind && is_probation e.kind
        then record longer { kind = previous.kind; window = previous.window }
        else longer)
    else e

unfoldable pub keep_attempts : BanEntry → BanEntry → BanEntry
keep_attempts previous e =
    if ltb e.probe_attempts previous.probe_attempts
    then record e { probe_attempts = previous.probe_attempts }
    else e

unfoldable pub cooled : BanEntry → BanEntry
cooled entry = record (normalize_ban_entry entry) {
  phase = cooldown;
  probe_started_at = 0;
  probe_lease_until = 0;
}

unfoldable pub cooldown_over : Option BanEntry → BanEntry → BanEntry
cooldown_over none entry = cooled entry
cooldown_over (some raw) entry =
    let previous = normalize_ban_entry raw in
    keep_attempts previous (keep_reset previous (keep_lease previous (cooled entry)))

unfoldable pub set_cooldown : BanState → Text → BanEntry → BanState
set_cooldown s id entry = let k = trim_space id in put s k (cooldown_over (lookup k s.bans) entry)

-- Restoring does not replace a later cooldown or a longer lease.
unfoldable pub outlives : Option BanEntry → BanEntry → Bool
outlives none e = false
outlives (some raw) e =
    let previous = normalize_ban_entry raw in
    after previous.reset_at e.reset_at
    || (is_half_open previous.phase && after previous.probe_lease_until e.probe_lease_until)

unfoldable pub set : BanState → Text → BanEntry → BanState
set s id entry =
    let k = trim_space id in
    let e = normalize_ban_entry entry in
    if is_empty k || outlives (lookup k s.bans) e then s else put s k e

unfoldable pub set_if_absent : BanState → Text → BanEntry → BanState
set_if_absent s id entry =
    let k = trim_space id in
    if is_empty k
    then s
    else elim (lookup k s.bans) [ some e ↦ s | none ↦ put s k (normalize_ban_entry entry) ]

-- Did the 429 answer an anonymous probe?
unfoldable pub fails_probe : Option BanEntry → Time → Bool
fails_probe none requested = false
fails_probe (some raw) requested =
    let previous = normalize_ban_entry raw in
    is_half_open previous.phase
    && is_empty previous.probe_owner
    && probe_request_matches previous requested

unfoldable pub backed_off : BanEntry → BanEntry
backed_off e =
    if ltb 0 e.probe_failures
    then record e {
      reset_at =
          later e.reset_at (
            e.banned_at
            + recovery_retry_delay e.probe_failures e.local_backoff e.local_backoff_max);
    }
    else e

unfoldable pub evidence : Option BanEntry → BanEntry → Time → BanEntry
evidence none e requested = record e { evidence_generation = 1 }
evidence (some raw) e requested =
    let previous = normalize_ban_entry raw in
    backed_off (record e {
      probe_failures =
          if fails_probe (some raw) requested
          then previous.probe_failures + 1
          else previous.probe_failures;
      evidence_generation = next_generation previous.evidence_generation;
    })

unfoldable pub record_429 : BanState → Text → BanEntry → Time → BanState
record_429 s id entry requested =
    let k = trim_space id in
    let e = normalize_ban_entry entry in
    if is_empty k
    then s
    else set_cooldown
        (record s {
          total_429s = s.total_429s + 1;
          probation_429s = if is_probation e.kind then s.probation_429s + 1 else s.probation_429s;
          probe_failures =
              if fails_probe (lookup k s.bans) requested
              then s.probe_failures + 1
              else s.probe_failures;
        })
        k (evidence (lookup k s.bans) e requested)

unfoldable pub schedulable : BanState → Text → Time → Bool
schedulable s id now = elim (lookup (trim_space id) s.bans) [
  | none ↦ true
  | some e ↦ is_probe_ready (ban_entry_disposition e now)
]

pub data Admission : Type 0 where
  denied owned : Admission
  bound started : BanEntry → Admission

unfoldable pub admit : BanEntry → Text → Time → Duration → Admission
admit raw owner now lease =
    let e = normalize_ban_entry raw in
    if not (is_empty owner) && is_half_open e.phase && same e.probe_owner owner
    then owned
    else (if not (is_empty owner)
          && is_half_open e.phase
          && is_empty e.probe_owner
          && not (is_zero e.probe_lease_until)
          && before now e.probe_lease_until
        then bound (record e { probe_owner = owner; probe_generation = e.evidence_generation })
        else (if not (is_probe_ready (ban_entry_disposition e now))
            then denied
            else started (record e {
              phase = half_open;
              probe_started_at = now;
              probe_lease_until = now + lease;
              probe_attempts = e.probe_attempts + 1;
              probe_owner = owner;
              probe_dispatched = false;
              probe_generation = e.evidence_generation;
            })))

abbrev pub admit_store : BanState → Text → Admission → BanState × Bool × Bool
admit_store s k denied = (s, false, false)
admit_store s k owned = (s, true, false)
admit_store s k (bound e) = (put s k e, true, false)
admit_store s k (started e) = (record (put s k e) { probe_starts = s.probe_starts + 1 }, true, true)

-- Returns the store, allowed and probeStarted.
unfoldable pub try_start_probe_owned :
    BanState → Text → Text → Time → Duration → BanState × Bool × Bool
try_start_probe_owned s id owner now lease =
    let k = trim_space id in
    if is_empty k then (s, false, false) else elim (lookup k s.bans) [
      | none ↦ (s, true, false)
      | some e ↦ admit_store s k (admit e owner now (if lease == 0 then 15 * minute else lease))
    ]

unfoldable pub try_start_probe : BanState → Text → Time → Duration → BanState × Bool × Bool
try_start_probe s id now lease = try_start_probe_owned s id [] now lease
