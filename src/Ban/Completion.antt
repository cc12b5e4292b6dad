-- ===== src/Ban/Completion.antt =====
-- main.go: how a quarantine entry ends, by the outcome of its probe or by an operator, and the
-- methods of banState that copy it.
use cpa_codex_quota_schedule.Common.{
  ℕ, ◌+◌, ◌*◌, Bool, true, false, not, ◌&&◌, ◌||◌, [], ◌∷◌, Option, none, some, ltb, ◌==◌,
  if◌then◌else◌, Text, is_empty, same, trim_space, Dict, lookup, delete, revise, Time, Duration,
  later, minute, length,
}
use cpa_codex_quota_schedule.Recovery.Retry.{recovery_retry_delay}
use cpa_codex_quota_schedule.Ban.Entry.{
  cooldown, BanEntry, is_half_open, is_quota, normalize_ban_entry, probe_request_matches,
}
use cpa_codex_quota_schedule.Ban.Store.{BanState, put}

pub data ProbeOutcome : Type 0 where
  ignored : ProbeOutcome
  cleared : ProbeOutcome
  retried : BanEntry → ProbeOutcome

unfoldable pub probe_outcome : BanEntry → Time → Time → Bool → Duration → ProbeOutcome
probe_outcome raw requested now success retry_after =
    let e = normalize_ban_entry raw in
    if not (is_empty e.probe_owner) || not (probe_request_matches e requested)
    then ignored
    else (if success
        then cleared
        else retried (record e {
          phase = cooldown;
          reset_at = now + retry_after;
          probe_started_at = 0;
          probe_lease_until = 0;
        }))

abbrev pub outcome_store : BanState → Text → ProbeOutcome → BanState × Bool × Bool
outcome_store s k ignored = (s, false, false)
outcome_store s k cleared =
    (record s { bans = delete k s.bans; probe_successes = s.probe_successes + 1 }, true, true)
outcome_store s k (retried e) =
    (record (put s k e) { probe_failures = s.probe_failures + 1 }, false, true)

-- Returns the store, cleared and changed. The entry that the source returns beside them is only
-- logged.
unfoldable pub complete_probe :
    BanState → Text → Time → Time → Bool → Duration → BanState × Bool × Bool
complete_probe s id requested now success retry_after =
    let k = trim_space id in
    if is_empty k then (s, false, false) else elim (lookup k s.bans) [
      | none ↦ (s, false, false)
      | some e ↦ outcome_store s k (
          probe_outcome e requested now success
            (if retry_after == 0 then 2 * minute else retry_after))
    ]

unfoldable pub owns : Text → BanEntry → Bool
owns owner e = not (is_empty owner) && same e.probe_owner owner && is_half_open e.phase

unfoldable pub mark_probe_dispatched : BanState → Text → Text → BanState
mark_probe_dispatched s id owner = elim (lookup id s.bans) [
  | none ↦ s
  | some e ↦ if owns owner e then put s id (record e { probe_dispatched = true }) else s
]

-- The entries that completeOwnedProbeExcept passes over.
unfoldable pub is_skipped : Text → Text → Bool → Text → BanEntry → Bool
is_skipped owner except preserve id e =
    not (is_half_open e.phase)
    || not (same e.probe_owner owner)
    || same id except
    || (preserve && e.probe_dispatched)

unfoldable pub reopened : Time → Duration → Duration → BanEntry → BanEntry
reopened now retry_after max_ban e = record e {
  phase = cooldown;
  probe_owner = [];
  probe_dispatched = false;
  probe_started_at = 0;
  probe_lease_until = 0;
  probe_failures = e.probe_failures + 1;
  reset_at =
      later e.reset_at (now + recovery_retry_delay (e.probe_failures + 1) retry_after max_ban);
}

abbrev pub proves : Bool → BanEntry → Bool
proves success e = success && e.probe_generation == e.evidence_generation

-- The body of the loop: none deletes the entry.
unfoldable pub complete_entry :
    Text → Text → Bool → Bool → Time → Duration → Duration → Text → BanEntry → Option BanEntry
complete_entry owner except success preserve now retry_after max_ban id e =
    if is_skipped owner except preserve id e
    then some e
    else (if proves success e then none else some (reopened now retry_after max_ban e))

unfoldable pub count_entries : (Text → BanEntry → Bool) → Dict BanEntry → ℕ
count_entries p [] = 0
count_entries p ((id, e) ∷ m) = (if p id e then 1 else 0) + count_entries p m

unfoldable pub complete_owned_probe_except :
    BanState → Text → Text → Bool → Bool → Time → Duration → Duration → BanState × Bool
complete_owned_probe_except s owner except success preserve now retry_after max_ban =
    let done =
      count_entries (λ id e. not (is_skipped owner except preserve id e) && proves success e)
        s.bans in
    let undone =
      count_entries (λ id e. not (is_skipped owner except preserve id e) && not (proves success e))
        s.bans in
    if is_empty owner then (s, false) else (
      record s {
        bans = revise (complete_entry owner except success preserve now retry_after max_ban) s.bans;
        probe_successes = s.probe_successes + done;
        probe_failures = s.probe_failures + undone;
      },
      ltb 0 (done + undone),
    )

unfoldable pub complete_owned_probe :
    BanState → Text → Bool → Time → Duration → Duration → BanState × Bool
complete_owned_probe s owner success now retry_after max_ban =
    complete_owned_probe_except s owner [] success false now retry_after max_ban

unfoldable pub clear : BanState → Text → BanState
clear s id = record s { bans = delete (trim_space id) s.bans }

-- Returns how many entries it removed.
unfoldable pub clear_all : BanState → BanState × ℕ
clear_all s = (record s { bans = [] }, length s.bans)

unfoldable pub same_quota_ban : BanEntry → BanEntry → Bool
same_quota_ban raw_a raw_b =
    let a = normalize_ban_entry raw_a in
    let b = normalize_ban_entry raw_b in
    is_quota a.kind
    && is_quota b.kind
    && not (is_half_open a.phase)
    && not (is_half_open b.phase)
    && a.banned_at == b.banned_at
    && a.reset_at == b.reset_at

abbrev pub is_still : BanEntry → Option BanEntry → Bool
is_still e none = false
is_still e (some current) = same_quota_ban current e

-- Other parts end a cooldown that is still the one they have read: releaseElapsedQuotaCooldowns of
-- quota_demand.go once it is over, and reset_credits.go after a redeemed credit.
unfoldable pub remove_same : BanState → Text → BanEntry → BanState
remove_same s id e =
    if is_still e (lookup id s.bans) then record s { bans = delete id s.bans } else s

unfoldable pub snapshot_bans : Dict BanEntry → Dict BanEntry
snapshot_bans [] = []
snapshot_bans ((id, e) ∷ m) = (id, normalize_ban_entry e) ∷ snapshot_bans m
