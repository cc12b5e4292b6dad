-- ===== src/Ban/Ownership.antt =====
-- main.go: a half-open probe that a request owns.
pub mod Runs
use cpa_codex_quota_schedule.Common.{
  ℕ, ◌+◌, ◌*◌, Bool, true, false, List, [], ◌∷◌, Option, none, some, ◌≡◌, ◌≢◌, refl, ◌⊎◌, inl, inr,
  arith, Text, Dict, lookup, insert, delete, revise, IsMap, IsMap-insert, IsMap-delete,
  IsMap-revise, lookup-insert, lookup-delete, lookup-revise, trim_space, Time, Duration, All,
  Option-cases, Bool-cases, is_empty, if◌then◌else◌, ◌==◌, minute, revised,
}
use cpa_codex_quota_schedule.Ban.Entry.{
  BanPhase, cooldown, half_open, BanEntry, kind_of, normalize_ban_entry, ban_entry_disposition,
  is_probe_ready,
}
use cpa_codex_quota_schedule.Ban.Store.{
  BanState, put, set_if_absent, record_429, evidence, set_cooldown, cooldown_over, cooled,
  keep_lease, keep_reset, keep_attempts, schedulable, Admission, denied, owned, bound, started,
  admit, admit_store, try_start_probe_owned, set,
}
use cpa_codex_quota_schedule.Ban.Completion.{
  ProbeOutcome, ignored, cleared, retried, probe_outcome, outcome_store, complete_probe,
  mark_probe_dispatched, owns, complete_entry, is_skipped, complete_owned_probe_except, clear,
  same_quota_ban, is_still,
}
use cpa_codex_quota_schedule.Ban.Calls.{
  Call, sets, sets_if_absent, records, starts, completes, marks, completes_owned, clears,
  clears_all, removes, step, run,
}

-- The calls that leave the owner's probe of the credential alone: all but the owner's own
-- completion, an operator's clear and a restored entry for the credential.
abbrev pub Spares : Text → Text → Call → Type 0
Spares id owner (sets k e) = trim_space k ≢ id
Spares id owner (completes_owned o except success preserve now retry_after max_ban) =
    (o ≢ owner) ⊎ (except ≡ id)
Spares id owner (clears k) = trim_space k ≢ id
Spares id owner clears_all = ⊥
Spares id owner other = Unit

abbrev pub OwnedBy : Text → Option BanEntry → Type 0
OwnedBy owner none = ⊥
OwnedBy owner (some e) = (e.phase ≡ half_open) × (e.probe_owner ≡ owner) × (e.probe_started_at ≢ 0)

-- The credential is half-open, and the request owns its probe.
pub record Probed (s : BanState) (id owner : Text) : Type 0 where
  pub owned_by : OwnedBy owner (lookup id s.bans)
  pub is_map : IsMap s.bans

pub normalize-OwnedBy :
    (owner : Text) (e : BanEntry)
    → OwnedBy owner (some e)
    → OwnedBy owner (some (normalize_ban_entry e))
unfolding normalize_ban_entry
normalize-OwnedBy owner e h = ground arith

pub cooldown_over-OwnedBy :
    (owner : Text) (o : Option BanEntry) (e : BanEntry)
    → owner ≢ []
    → OwnedBy owner o
    → OwnedBy owner (some (cooldown_over o e))
unfolding cooldown_over keep_attempts keep_reset keep_lease
cooldown_over-OwnedBy owner none e n h = absurd h
cooldown_over-OwnedBy owner (some p) e n h = ground (arith, normalize-OwnedBy owner p h)

-- No admission writes to an owned entry.
abbrev pub Writes : Admission → Type 0
Writes denied = ⊥
Writes owned = ⊥
Writes (bound e) = Unit
Writes (started e) = Unit

pub admit-OwnedBy :
    (owner other : Text) (e : BanEntry) (now : Time) (lease : Duration)
    → owner ≢ []
    → OwnedBy owner (some e)
    → ¬ Writes (admit e other now lease)
unfolding admit ban_entry_disposition normalize_ban_entry
admit-OwnedBy owner other e now lease n h w = ground arith

pub admit_denied :
    (owner other : Text) (e : BanEntry) (now : Time) (lease : Duration)
    → owner ≢ []
    → other ≢ owner
    → OwnedBy owner (some e)
    → admit e other now lease ≡ denied
unfolding admit ban_entry_disposition normalize_ban_entry
admit_denied owner other e now lease n m h = ground arith

pub not-ready :
    (owner : Text) (e : BanEntry) (now : Time)
    → owner ≢ []
    → OwnedBy owner (some e)
    → is_probe_ready (ban_entry_disposition e now) ≡ false
unfolding ban_entry_disposition normalize_ban_entry
not-ready owner e now n h = ground arith

pub probe_outcome-OwnedBy :
    (owner : Text) (e : BanEntry) (requested now : Time) (success : Bool) (d : Duration)
    → owner ≢ []
    → OwnedBy owner (some e)
    → probe_outcome e requested now success d ≡ ignored
unfolding probe_outcome normalize_ban_entry
probe_outcome-OwnedBy owner e requested now success d n h = ground arith

-- An owned entry is no cooldown.
pub is_still-OwnedBy :
    (owner : Text) (e : BanEntry) (o : Option BanEntry)
    → owner ≢ []
    → OwnedBy owner o
    → is_still e o ≡ false
unfolding same_quota_ban normalize_ban_entry
is_still-OwnedBy owner e none n h = absurd h
is_still-OwnedBy owner e (some c) n h = ground arith

pub complete_entry-OwnedBy :
    (owner id o except : Text) (success preserve : Bool) (now : Time) (a b : Duration)
    (e : BanEntry)
    → (o ≢ owner) ⊎ (except ≡ id)
    → OwnedBy owner (some e)
    → complete_entry o except success preserve now a b id e ≡ some e
unfolding complete_entry is_skipped
complete_entry-OwnedBy owner id o except success preserve now a b e c h = ground arith
