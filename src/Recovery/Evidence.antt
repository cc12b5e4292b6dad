-- ===== src/Recovery/Evidence.antt =====
-- recovery_guard.go: what the recovery guard takes as evidence: of a recovery, and against one.
use cpa_codex_quota_schedule.Common.{
  ◌+◌, ◌≤◌, ◌<◌, Bool, true, false, not, [], Option, none, some, ◌≡◌, ◌≢◌, refl, inl, inr, arith,
  Text, lookup, lookup-insert, trim_space, Time, Duration, all, Option-cases,
}
use cpa_codex_quota_schedule.Quota.{QuotaWindow, QuotaSnapshot, quota_snapshot_fresh}
use cpa_codex_quota_schedule.Recovery.Retry.{recovery_retry_delay}
use cpa_codex_quota_schedule.Recovery.Guard.{
  RecoveryEntry, RecoveryGuard, Reservation, reserve_store, refused, kept, claimed, observe,
  observe_room, exhausted, rebind, full_window, has_room, proves_recovery, reserve, reserve_entry,
  lapse, claim,
}
use cpa_codex_quota_schedule.Recovery.Lifecycle.{blocked_for_pick, blocks}

abbrev admits : Reservation → Bool
admits refused = false
admits kept = true
admits (claimed e) = true

-- The credential is bound as the caller says, and the request holds no other credential's permit.
abbrev pub Binds : Text → Text → Text → Option RecoveryEntry → Type 0
Binds id index request none = Unit
Binds id index request (some e) =
    (e.auth_index ≡ index) × (e.owner ≡ request → e.owner_auth_id ≡ id)

reserve_store-admits :
    (g : RecoveryGuard) (id : Text) (x : Reservation) → (reserve_store g id x).1 ≡ admits x
reserve_store-admits g id refused = refl
reserve_store-admits g id kept = refl
reserve_store-admits g id (claimed e) = refl

reserve_entry-blocks :
    (e : RecoveryEntry) (id index request : Text) (now : Time)
    → trim_space index ≡ index
    → index ≢ []
    → request ≢ []
    → Binds id index request (some e)
    → admits (reserve_entry e id index request now) ≡ not (blocks index request now e)
unfolding reserve_entry lapse claim blocks
reserve_entry-blocks e id index request now tx ni nr b = ground arith

-- For a named request, a credential and an auth index without blanks around them, the index not
-- empty, where an entry of the credential is bound to that index and, if the request owns it, was
-- reserved by it for that credential: the test that the pick makes without a claim and the claim
-- itself agree, so reserve admits exactly what is not blocked.
pub reserve-eq-not-blocked :
    (g : RecoveryGuard) (id index request : Text) (now : Time)
    → trim_space id ≡ id
    → trim_space index ≡ index
    → index ≢ []
    → request ≢ []
    → Binds id index request (lookup id g)
    → (reserve g id index request now).1 ≡ not (blocked_for_pick g id index request now)
unfolding reserve blocked_for_pick
reserve-eq-not-blocked g id index request now ti tx ni nr b = elim (Option-cases (lookup id g)) [
  | inl e ↦ ground arith
  | inr (v, e) ↦ ground (
    arith,
    reserve_store-admits g id (reserve_entry v id index request now),
    reserve_entry-blocks v id index request now tx ni nr (ground (arith, b)),
  )
]

-- What a guard entry keeps of the 429 that arrived while its request was out, after that request has
-- reported a success: it has no owner, is not ready, counts a failure more and a generation that is
-- not the one before, and no retry is earlier than before, than the 429 asks for, or than the delay
-- after that many failures.
pub record IsGuarded (e : RecoveryEntry) (heard retry now : Time) (base max : Duration)
    (e' : RecoveryEntry) : Type 0 where
  pub unowned : (e'.owner ≡ []) × (e'.owner_auth_id ≡ []) × (e'.dispatched ≡ false)
  pub unready : e'.ready ≡ false
  pub counted : e'.failures ≡ e.failures + 1
  pub moved_on : e'.generation ≢ e.generation
  pub observed : e'.observed_at ≡ heard
  pub bound : e'.auth_index ≡ e.auth_index
  pub retried :
      (e.retry_at ≤ e'.retry_at)
      × (retry ≤ e'.retry_at)
      × (now + recovery_retry_delay (e.failures + 1) base max ≤ e'.retry_at)

exhausted-ready :
    (index : Text) (w : QuotaWindow) (o : Option RecoveryEntry)
    → (exhausted index w o).ready ≡ false
unfolding exhausted
exhausted-ready index w none = refl
exhausted-ready index w (some e) = refl

observe_room-ready :
    (g : RecoveryGuard) (k index : Text) (s : QuotaSnapshot) (now : Time) (stale : Duration)
    (o : Option RecoveryEntry) (id : Text) (e e' : RecoveryEntry)
    → lookup k g ≡ o
    → lookup id g ≡ some e
    → e.ready ≡ false
    → lookup id (observe_room g k index s now stale o) ≡ some e'
    → e'.ready ≡ true
    → (k ≡ id)
      × (e.dispatched ≡ false)
      × (quota_snapshot_fresh s now stale ≡ true)
      × (e.observed_at < s.refreshed_at)
      × (all (has_room now) s.windows ≡ true)
unfolding observe_room rebind proves_recovery
observe_room-ready g k index s now stale none id e e' lk l r l' r' = absurd (ground arith)
observe_room-ready g k index s now stale (some v) id e e' lk l r l' r' =
    ground (arith, lookup-insert k id (record (rebind index v) { ready = true }) g)

-- An entry that was not ready becomes ready only by a snapshot that is fresh, newer than the last
-- evidence against the credential, without an exhausted 5h window and with room in every window,
-- and never while a dispatched request holds the permit.
pub observe_ready :
    (g : RecoveryGuard) (s : QuotaSnapshot) (now : Time) (stale : Duration) (id : Text)
    (e e' : RecoveryEntry)
    → lookup id g ≡ some e
    → e.ready ≡ false
    → lookup id (observe g s now stale) ≡ some e'
    → e'.ready ≡ true
    → (trim_space s.auth_id ≡ id)
      × (e.dispatched ≡ false)
      × (quota_snapshot_fresh s now stale ≡ true)
      × (e.observed_at < s.refreshed_at)
      × (full_window s.windows now ≡ none)
      × (all (has_room now) s.windows ≡ true)
unfolding observe
observe_ready g s now stale id e e' l r l' r' = elim (Option-cases (full_window s.windows now)) [
  | inl f ↦ ground (
    arith,
    observe_room-ready g (trim_space s.auth_id) (trim_space s.auth_index) s now stale
        (lookup (trim_space s.auth_id) g) id e e' refl l r,
  )
  | inr (w, f) ↦ absurd (
      ground (
        arith,
        lookup-insert (trim_space s.auth_id) id
            (exhausted (trim_space s.auth_index) w (lookup (trim_space s.auth_id) g)) g,
        exhausted-ready (trim_space s.auth_index) w (lookup (trim_space s.auth_id) g),
      ))
]
