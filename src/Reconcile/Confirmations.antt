-- ===== src/Reconcile/Confirmations.antt =====
-- ban_reconcile.go: the confirmations of a new quota cycle, and the quarantines that they end.
-- Logging and the call that saves the state are left out.
use cpa_codex_quota_schedule.Common.{
  ℕ, ◌+◌, ◌-◌, ◌%◌, ◌^◌, Bool, true, false, not, ◌&&◌, ◌||◌, List, [], ◌∷◌, ◌++◌, Option, none,
  some, ltb, leb, ◌==◌, if◌then◌else◌, Text, text, is_empty, same, trim_space, has_prefix, Dict,
  lookup, insert, delete, revise, Time, Duration, is_zero, before, after,
}
use cpa_codex_quota_schedule.Quota.{QuotaSnapshot}
use cpa_codex_quota_schedule.Ban.Entry.{BanEntry, is_half_open, is_quota}
use cpa_codex_quota_schedule.Ban.Store.{BanState, lookup_ban}
use cpa_codex_quota_schedule.Ban.Completion.{is_still, clear}
use cpa_codex_quota_schedule.Reconcile.Evidence.{Proof, or_quarter, proves_new_cycle}

pub record Confirmation : Type 0 where
  pub auth_id : Text
  pub banned_at : Time
  pub ban_reset_at : Time
  pub first_snapshot_at : Time
  pub last_snapshot_at : Time
  pub confirmations : ℕ
  pub reason : Text

-- What recentWarmup429 reads of a warmupEntry.
pub record WarmupEntry : Type 0 where
  pub auth_id : Text
  pub status : ℕ
  pub attempted_at : Time

pub record State : Type 0 where
  pub bans : BanState
  pub confirmations : Dict Confirmation
  pub warmups : Dict WarmupEntry
  pub events : ℕ  -- uint64
  pub clears : ℕ  -- uint64
  pub last_reason : Text
  pub last_clear_at : Time

-- The latest snapshot of each credential.
unfoldable pub latest_snapshots : Dict QuotaSnapshot → Dict QuotaSnapshot → Dict QuotaSnapshot
latest_snapshots [] latest = latest
latest_snapshots ((k, s) ∷ quotas) latest =
    let id = trim_space s.auth_id in
    latest_snapshots quotas (
      if is_empty id then latest else elim (lookup id latest) [
        | none ↦ insert id s latest
        | some previous ↦
            if after s.refreshed_at previous.refreshed_at then insert id s latest else latest
      ])

abbrev pub of_credential : Text → Text → WarmupEntry → Bool
of_credential id key w = same (trim_space w.auth_id) id || has_prefix key (id ++ text "|")

abbrev pub is_recent_429 : Time → Duration → WarmupEntry → Bool
is_recent_429 now retry_after w =
    w.status == 429 && not (is_zero w.attempted_at) && ltb (now - w.attempted_at) retry_after

unfoldable pub recent_warmup_429 : Dict WarmupEntry → Text → Time → Duration → Bool
recent_warmup_429 [] id now retry_after = false
recent_warmup_429 ((key, w) ∷ warmups) id now retry_after =
    (of_credential (trim_space id) key w && is_recent_429 now (or_quarter retry_after) w)
    || recent_warmup_429 warmups id now retry_after

abbrev pub keep_other : Text → Text → WarmupEntry → Option WarmupEntry
keep_other id key w = if of_credential (trim_space id) key w then none else some w

unfoldable pub clear_warmups : Dict WarmupEntry → Text → Dict WarmupEntry
clear_warmups warmups id = revise (keep_other id) warmups

abbrev pub empty_confirmation : Confirmation
empty_confirmation = record {
  auth_id = [];
  banned_at = 0;
  ban_reset_at = 0;
  first_snapshot_at = 0;
  last_snapshot_at = 0;
  confirmations = 0;
  reason = [];
}

abbrev pub or_empty : Option Confirmation → Confirmation
or_empty none = empty_confirmation
or_empty (some c) = c

-- Is the confirmation of another quarantine, for another reason, or too old?
unfoldable pub is_obsolete : Confirmation → BanEntry → Text → Time → Duration → Bool
is_obsolete c e reason now stale =
    not (c.banned_at == e.banned_at)
    || not (c.ban_reset_at == e.reset_at)
    || not (same c.reason reason)
    || is_zero c.last_snapshot_at
    || before now c.last_snapshot_at
    || ltb stale (now - c.last_snapshot_at)

-- Returns the confirmation and whether it advanced.
unfoldable pub advance_confirmation :
    Dict Confirmation
    → Text
    → BanEntry
    → Proof
    → Time
    → Duration
    → Dict Confirmation × Confirmation × Bool
advance_confirmation m id e (reason, at) now stale =
    let c = or_empty (lookup id m) in
    let first : Confirmation = record {
      auth_id = id;
      banned_at = e.banned_at;
      ban_reset_at = e.reset_at;
      first_snapshot_at = at;
      last_snapshot_at = at;
      confirmations = 1;
      reason = reason;
    } in
    let next = record c { last_snapshot_at = at; confirmations = c.confirmations + 1 } in
    if is_obsolete c e reason now (or_quarter stale)
    then (insert id first m, first, true)
    else (if after at c.last_snapshot_at then (insert id next m, next, true) else (m, c, false))

-- The drop of a confirmation: it no longer counts.
unfoldable pub drop_confirmation : State → Text → State
drop_confirmation s id = record s { confirmations = delete id s.confirmations }

-- A snapshot can only end a cooldown after a 429 of the quota that it was taken after.
unfoldable pub is_candidate : BanEntry → QuotaSnapshot → Time → Duration → Bool
is_candidate e q now stale =
    is_quota e.kind
    && not (is_half_open e.phase)
    && not (is_zero e.banned_at)
    && not (is_zero q.refreshed_at)
    && not (before now q.refreshed_at)
    && leb (now - q.refreshed_at) stale
    && after q.refreshed_at e.banned_at

unfoldable pub clear_ban : State → Text → Time → State
clear_ban s id now = record s {
  bans = clear s.bans id;
  confirmations = delete id s.confirmations;
  warmups = clear_warmups s.warmups id;
  clears = (s.clears + 1) % 2 ^ 64;
  last_reason = text "external_new_cycle";
  last_clear_at = now;
}

-- The quarantine ends only if nobody has changed it meanwhile.
unfoldable pub confirmed : State → Text → BanEntry → Confirmation → Time → Duration → State × Bool
confirmed s id e c now retry_after =
    if ltb c.confirmations 2
      || recent_warmup_429 s.warmups id now retry_after
      || not (is_still e (lookup_ban s.bans id))
    then (s, false)
    else (clear_ban s id now, true)

abbrev pub with_proof :
    State
    → (BanState → BanState)
    → Text
    → BanEntry
    → Time
    → Duration
    → Duration
    → Option Proof
    → State × Bool
with_proof s meanwhile id e now stale retry_after none = (drop_confirmation s id, false)
with_proof s meanwhile id e now stale retry_after (some p) =
    let (m, c, advanced) = advance_confirmation s.confirmations id e p now stale in
    confirmed
      (record s {
        bans = meanwhile s.bans;
        confirmations = m;
        events = if advanced then (s.events + 1) % 2 ^ 64 else s.events;
      })
      id e c now retry_after

-- One credential; `meanwhile` is what other callers do to the quarantine store between the two times
-- that it is read. Returns whether the quarantine has ended.
unfoldable pub reconcile_one :
    State → (BanState → BanState) → Text → QuotaSnapshot → Time → Duration → Duration → State × Bool
reconcile_one s meanwhile id q now stale retry_after = elim (lookup_ban s.bans id) [
  | none ↦ (drop_confirmation s id, false)
  | some e ↦
      if is_candidate e q now (or_quarter stale)
      then with_proof s meanwhile id e now stale retry_after
          (proves_new_cycle q e now (or_quarter stale))
      else (drop_confirmation s id, false)
]

unfoldable pub reconcile_all :
    State
    → (BanState → BanState)
    → Dict QuotaSnapshot
    → Time
    → Duration
    → Duration
    → State × List Text
reconcile_all s meanwhile [] now stale retry_after = (s, [])
reconcile_all s meanwhile ((id, q) ∷ qs) now stale retry_after =
    let (t, is_cleared) = reconcile_one s meanwhile id q now stale retry_after in
    let (u, cleared) = reconcile_all t meanwhile qs now stale retry_after in
    (u, if is_cleared then id ∷ cleared else cleared)

-- reconcileExternallyResetQuotaBans. Returns the credentials whose quarantine has ended.
unfoldable pub reconcile :
    State
    → (BanState → BanState)
    → Dict QuotaSnapshot
    → Time
    → Duration
    → Duration
    → State × List Text
reconcile s meanwhile quotas now stale retry_after =
    reconcile_all s meanwhile (latest_snapshots quotas []) now stale retry_after
