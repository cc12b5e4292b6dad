-- ===== src/Concurrency/Rejected.antt =====
-- concurrency.go: releaseRejectedContinuityAttempt, which isolates a credential whose attempt the
-- upstream has refused before any output, over the ledger, the recovery guard and the quarantine.
use cpa_codex_quota_schedule.Common.{
  ◌+◌, Bool, true, false, ◌||◌, [], Option, none, some, ◌≡◌, ◌≢◌, inl, inr, refl, Bool-cases,
  Option-cases, IsMap, IsMap-insert, lookup-insert_self, lookup-revise, arith, if◌then◌else◌, Text,
  text, is_empty, trim_space, lookup, Time, Duration, second,
}
use cpa_codex_quota_schedule.Recovery.Guard.{RecoveryEntry, RecoveryGuard}
use cpa_codex_quota_schedule.Recovery.Lifecycle.{
  require, required, entry_or_new, is_kept, freed, failed, finish_entry, finish_except, finish,
}
use cpa_codex_quota_schedule.Ban.Entry.{BanKind, BanPhase, BanEntry, normalize_ban_entry}
use cpa_codex_quota_schedule.Ban.Store.{BanState, set_if_absent}
use cpa_codex_quota_schedule.Ban.Completion.{
  complete_entry, complete_owned_probe, complete_owned_probe_except,
}
use cpa_codex_quota_schedule.Concurrency.Ledger.{Request, Gate}
use cpa_codex_quota_schedule.Concurrency.Queue.{detach}

pub record System : Type 0 where
  pub gate : Gate
  pub guard : RecoveryGuard
  pub bans : BanState

-- The quarantine until the 429 is classified.
abbrev pub unclassified : Time → BanEntry
unclassified now = record {
  reset_at = now + second;
  window = text "probation (429 awaiting classification)";
  banned_at = now;
  kind = BanKind.probation;
  phase = BanPhase.cooldown;
  probe_started_at = 0;
  probe_lease_until = 0;
  probe_attempts = 0;
  probe_owner = [];
  probe_dispatched = false;
  probe_failures = 0;
  local_backoff = 0;
  local_backoff_max = 0;
  evidence_generation = 0;
  probe_generation = 0;
  provisional = true;
}

-- The credential of the attempt is guarded and quarantined before its slot is freed.
unfoldable pub isolate : System → Request → Time → System
isolate s r now = if is_empty r.auth_id then s else record s {
  guard = require s.guard r.auth_id r.auth_index now (now + second);
  bans = set_if_absent s.bans r.auth_id (unclassified now);
}

unfoldable pub reject_attempt : System → Text → Option Request → Time → System × Bool
reject_attempt s id none now = (s, false)
reject_attempt s id (some r) now =
    if r.dispatched
    then (let t = isolate s r now in (record t { gate = detach t.gate id }, true))
    else (s, false)

-- Returns the system, and whether the state must be saved.
unfoldable pub release_rejected_attempt : System → Text → Time → Duration → Duration → System × Bool
release_rejected_attempt s request now base max =
    let id = trim_space request in
    let (t, has_changed) = reject_attempt s id (lookup id s.gate.requests) now in
    let (guard, has_finished) = finish t.guard request false now base max in
    let (bans, has_completed) = complete_owned_probe t.bans request false now base max in
    (record t { guard = guard; bans = bans }, has_completed || has_finished || has_changed)

require-ready :
    (g : RecoveryGuard) (id index : Text) (heard retry : Time)
    → trim_space id ≡ id
    → id ≢ []
    → trim_space index ≢ []
    → (e : RecoveryEntry) × (lookup id (require g id index heard retry) ≡ some e)
      × (e.ready ≡ false)
unfolding require required
require-ready g id index heard retry t n m =
    let e = required heard retry (entry_or_new (trim_space index) (lookup id g)) in
    (e, ground (arith, lookup-insert_self id e g), refl)

finish_entry-ready :
    (request except id : Text) (preserve : Bool) (now : Time) (base max : Duration)
    (e : RecoveryEntry)
    → e.ready ≡ false
    → (e' : RecoveryEntry) × (finish_entry request except false preserve now base max id e
        ≡ some e')
      × (e'.ready ≡ false)
unfolding finish_entry failed
finish_entry-ready request except id preserve now base max e h =
    elim (Bool-cases (is_kept request except preserve id e)) [
      | inl k ↦ (e, ground arith, h)
      | inr k ↦
          (freed (if e.dispatched then failed now base max e else e), ground arith, ground arith)
    ]

finish-ready :
    (g : RecoveryGuard) (id request : Text) (now : Time) (base max : Duration) (e : RecoveryEntry)
    → IsMap g
    → lookup id g ≡ some e
    → e.ready ≡ false
    → (e' : RecoveryEntry) × (lookup id (finish g request false now base max).0 ≡ some e')
      × (e'.ready ≡ false)
unfolding finish finish_except
finish-ready g id request now base max e m l h =
    let (e', q, k) = finish_entry-ready request [] id false now base max e h in
    elim (Bool-cases (is_empty request)) [
      | inl b ↦ (e, ground arith, h)
      | inr b ↦ (
        e',
        ground (arith, lookup-revise (finish_entry request [] false false now base max) id g m),
        k,
      )
    ]

complete_entry-keeps :
    (owner except id : Text) (preserve : Bool) (now : Time) (base max : Duration) (e : BanEntry)
    → complete_entry owner except false preserve now base max id e ≢ none
unfolding complete_entry
complete_entry-keeps owner except id preserve now base max e = ground arith

complete-keeps :
    (s : BanState) (id owner : Text) (now : Time) (base max : Duration)
    → IsMap s.bans
    → lookup id s.bans ≢ none
    → lookup id (complete_owned_probe s owner false now base max).0.bans ≢ none
unfolding complete_owned_probe complete_owned_probe_except
complete-keeps s id owner now base max m n = elim (Option-cases (lookup id s.bans)) [
  | inl e ↦ absurd (n e)
  | inr (b, e) ↦ elim (Bool-cases (is_empty owner)) [
    | inl o ↦ ground arith
    | inr o ↦ ground (
      arith,
      lookup-revise (complete_entry owner [] false false now base max) id s.bans m,
      complete_entry-keeps owner [] id false now base max b,
    )
  ]
]

set_if_absent-keeps :
    (s : BanState) (id : Text) (e : BanEntry)
    → trim_space id ≡ id
    → id ≢ []
    → IsMap s.bans
    → (lookup id (set_if_absent s id e).bans ≢ none) × IsMap (set_if_absent s id e).bans
unfolding set_if_absent
set_if_absent-keeps s id e t n m = ground (
  arith,
  lookup-insert_self id (normalize_ban_entry e) s.bans,
  IsMap-insert id (normalize_ban_entry e) s.bans m,
)

require-IsMap :
    (g : RecoveryGuard) (id index : Text) (heard retry : Time)
    → IsMap g
    → IsMap (require g id index heard retry)
unfolding require
require-IsMap g id index heard retry m = ground (
  arith,
  IsMap-insert (trim_space id)
      (required heard retry (entry_or_new (trim_space index) (lookup (trim_space id) g))) g m,
)

-- Where the guard and the quarantine store hold each credential once: after the upstream has refused a
-- dispatched attempt whose credential has an auth id that is not
-- empty and without blanks around it and an auth index that is not blank, its slot is free, its
-- credential is guarded by an entry that is not ready, and its credential is quarantined.
pub release_rejected_isolates :
    (s : System) (request : Text) (r : Request) (now : Time) (base max : Duration)
    → IsMap s.guard
    → IsMap s.bans.bans
    → lookup (trim_space request) s.gate.requests ≡ some r
    → r.dispatched ≡ true
    → trim_space r.auth_id ≡ r.auth_id
    → r.auth_id ≢ []
    → trim_space r.auth_index ≢ []
    → let t = (release_rejected_attempt s request now base max).0 in
      (lookup (trim_space request) t.gate.requests
        ≡ some (record r { key = []; auth_id = []; auth_index = []; dispatched = false }))
      × ((e : RecoveryEntry) × (lookup r.auth_id t.guard ≡ some e) × (e.ready ≡ false))
      × (lookup r.auth_id t.bans.bans ≢ none)
unfolding release_rejected_attempt reject_attempt isolate detach
release_rejected_isolates s request r now base max mg mb l d t n i =
    let r' = record r { key = []; auth_id = []; auth_index = []; dispatched = false } in
    let (e, q, k) = require-ready s.guard r.auth_id r.auth_index now (now + second) t n i in
    let (e', q', k') =
      finish-ready (require s.guard r.auth_id r.auth_index now (now + second)) r.auth_id request now
        base max e (require-IsMap s.guard r.auth_id r.auth_index now (now + second) mg) q k in
    let b = set_if_absent-keeps s.bans r.auth_id (unclassified now) t n mb in
    (
      ground (arith, lookup-insert_self (trim_space request) r' s.gate.requests),
      (e', ground (arith, q'), k'),
      ground (
        arith,
        complete-keeps (set_if_absent s.bans r.auth_id (unclassified now)) r.auth_id request now
            base max b.1 b.0,
      ),
    )
