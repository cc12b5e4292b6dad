-- ===== src/Recovery/Permit.antt =====
-- recovery_guard.go: a dispatched permit of the recovery guard over any sequence of calls.
use cpa_codex_quota_schedule.Common.{
  Bool, true, false, List, [], ◌∷◌, Option, none, some, ◌≡◌, ◌≢◌, refl, ◌⊎◌, inl, inr, arith, Text,
  lookup, insert, delete, revise, IsMap, IsMap-insert, IsMap-delete, IsMap-revise, lookup-insert,
  lookup-delete, lookup-revise, trim_space, Time, Duration, All, Option-cases,
}
use cpa_codex_quota_schedule.Quota.{QuotaWindow, QuotaSnapshot}
use cpa_codex_quota_schedule.Recovery.Guard.{
  RecoveryEntry, RecoveryGuard, Reservation, refused, kept, claimed, observe, observe_room,
  exhausted, rebind, full_window, reserve, reserve_entry, lapse, claim, reserve_store, dispatched,
}
use cpa_codex_quota_schedule.Recovery.Lifecycle.{
  finish_except, finish_entry, is_kept, finish, finish_other, require, required, entry_or_new,
  clear, clear_all, restore, restore_entry,
}

-- The calls that write to the guard.
pub data Call : Type 0 where
  observes : QuotaSnapshot → Time → Duration → Call
  reserves : Text → Text → Text → Time → Call
  dispatches : Text → Text → Call
  finishes : Text → Bool → Time → Duration → Duration → Call
  finishes_other : Text → Text → Time → Duration → Duration → Call
  requires : Text → Text → Time → Time → Call
  clears : Text → Call
  clears_all : Call
  restores : RecoveryGuard → Call

unfoldable pub step : RecoveryGuard → Call → RecoveryGuard
step g (observes s now stale) = observe g s now stale
step g (reserves id index request now) = (reserve g id index request now).0
step g (dispatches id request) = (dispatched g id request).0
step g (finishes request success now base max) = (finish g request success now base max).0
step g (finishes_other request selected now base max) = finish_other g request selected now base max
step g (requires id index now retry) = require g id index now retry
step g (clears id) = clear g id
step g clears_all = clear_all g
step g (restores saved) = restore g saved

unfoldable pub run : RecoveryGuard → List Call → RecoveryGuard
run g [] = g
run g (c ∷ cs) = run (step g c) cs

-- The calls that leave the permit of the request on the credential alone.
abbrev pub Spares : Text → Text → Call → Type 0
Spares id request (finishes r success now base max) = r ≢ request
Spares id request (finishes_other r selected now base max) = (r ≢ request) ⊎ (selected ≡ id)
Spares id request (clears k) = trim_space k ≢ id
Spares id request clears_all = ⊥
Spares id request other = Unit

abbrev HeldBy : Text → Option RecoveryEntry → Type 0
HeldBy request none = ⊥
HeldBy request (some e) = (e.owner ≡ request) × (e.dispatched ≡ true)

-- The request owns the credential's entry, and has gone out.
pub record Held (g : RecoveryGuard) (id request : Text) : Type 0 where
  pub held : HeldBy request (lookup id g)
  pub is_map : IsMap g

module _ (id request : Text) where
  put :
      (g : RecoveryGuard) (k : Text) (e : RecoveryEntry)
      → Held g id request
      → (k ≡ id → HeldBy request (lookup id g) → HeldBy request (some e))
      → Held (insert k e g) id request
  put g k e h f = record {
    held = ground (arith, lookup-insert k id e g, λ (p : k ≡ id). f p h.held);
    is_map = IsMap-insert k e g h.is_map;
  }

  exhausted-HeldBy :
      (index : Text) (w : QuotaWindow) (o : Option RecoveryEntry)
      → HeldBy request o
      → HeldBy request (some (exhausted index w o))
  unfolding exhausted rebind
  exhausted-HeldBy index w none h = absurd h
  exhausted-HeldBy index w (some e) h = ground arith

  observe_room-Held :
      (g : RecoveryGuard) (k index : Text) (s : QuotaSnapshot) (now : Time) (stale : Duration)
      (o : Option RecoveryEntry)
      → Held g id request
      → lookup k g ≡ o
      → Held (observe_room g k index s now stale o) id request
  unfolding observe_room rebind
  observe_room-Held g k index s now stale none h e = h
  observe_room-Held g k index s now stale (some v) h e =
      ground (arith, put g k (record (rebind index v) { ready = true }) h, h.held)

  observe-Held :
      (g : RecoveryGuard) (s : QuotaSnapshot) (now : Time) (stale : Duration)
      → Held g id request
      → Held (observe g s now stale) id request
  unfolding observe
  observe-Held g s now stale h = elim (Option-cases (full_window s.windows now)) [
    | inl e ↦
        rw (e, observe)
          (ground (
            arith,
            observe_room-Held g _ (trim_space s.auth_index) s now stale
                (lookup (trim_space s.auth_id) g) h refl,
          ))
    | inr (w, e) ↦
        rw (e, observe)
          (ground (
            arith,
            put g (trim_space s.auth_id)
                (exhausted (trim_space s.auth_index) w (lookup (trim_space s.auth_id) g)) h
                (λ p v. exhausted-HeldBy (trim_space s.auth_index) w _ (rw p v)),
          ))
  ]

  dispatched-Held :
      (g : RecoveryGuard) (k r : Text) → Held g id request → Held (dispatched g k r).0 id request
  unfolding dispatched
  dispatched-Held g k r h = elim (Option-cases (lookup k g)) [
    | inl e ↦ rw (e, dispatched) h
    | inr (v, e) ↦
        rw (e, dispatched) (ground (arith, put g k (record v { dispatched = true }) h, h.held))
  ]

  -- Only an entry that no dispatched request holds is claimed.
  reserve_entry-HeldBy :
      (e e' : RecoveryEntry) (k index r : Text) (now : Time)
      → HeldBy request (some e)
      → request ≢ []
      → reserve_entry e k index r now ≡ claimed e'
      → ⊥
  unfolding reserve_entry lapse claim
  reserve_entry-HeldBy e e' k index r now h n c = ground arith

  reserve_store-Held :
      (g : RecoveryGuard) (k : Text) (x : Reservation)
      → ((e : RecoveryEntry) → k ≡ id → x ≡ claimed e → ⊥)
      → Held g id request
      → Held (reserve_store g k x).0 id request
  reserve_store-Held g k refused f h = h
  reserve_store-Held g k kept f h = h
  reserve_store-Held g k (claimed e) f h = put g k e h (λ p v. absurd (f e p refl))

  reserve-Held :
      (g : RecoveryGuard) (k index r : Text) (now : Time)
      → request ≢ []
      → Held g id request
      → Held (reserve g k index r now).0 id request
  unfolding reserve
  reserve-Held g k index r now n h = elim (Option-cases (lookup k g)) [
    | inl e ↦ rw (e, reserve) h
    | inr (v, e) ↦
        rw (e, reserve)
          (reserve_store-Held g k (reserve_entry v k index r now)
            (λ e' p c. reserve_entry-HeldBy v e' k index r now (held_at v p e) n c) h)
  ]
    where
      held_at : (v : RecoveryEntry) → k ≡ id → lookup k g ≡ some v → HeldBy request (some v)
      held_at v p e = ground (arith, h.held)

  revise-Held :
      (g : RecoveryGuard) (f : Text → RecoveryEntry → Option RecoveryEntry)
      → ((e : RecoveryEntry) → HeldBy request (some e) → f id e ≡ some e)
      → Held g id request
      → Held (revise f g) id request
  revise-Held g f keep h = elim (Option-cases (lookup id g)) [
    | inl e ↦ absurd (ground (arith, h.held))
    | inr (v, e) ↦ record {
      held = ground (arith, lookup-revise f id g h.is_map, keep v (ground (arith, h.held)), h.held);
      is_map = IsMap-revise f g h.is_map;
    }
  ]

  finish_entry-eq :
      (r except : Text) (success preserve : Bool) (now : Time) (base max : Duration)
      (e : RecoveryEntry)
      → (r ≢ request) ⊎ (except ≡ id)
      → HeldBy request (some e)
      → finish_entry r except success preserve now base max id e ≡ some e
  unfolding finish_entry is_kept
  finish_entry-eq r except success preserve now base max e c h = ground arith

  finish_except-Held :
      (g : RecoveryGuard) (r except : Text) (success preserve : Bool) (now : Time)
      (base max : Duration)
      → (r ≢ request) ⊎ (except ≡ id)
      → Held g id request
      → Held (finish_except g r except success preserve now base max).0 id request
  unfolding finish_except
  finish_except-Held g r except success preserve now base max c h = ground (
    arith,
    revise-Held g (finish_entry r except success preserve now base max)
        (λ e v. finish_entry-eq r except success preserve now base max e c v) h,
  )

  required-HeldBy :
      (index : Text) (now retry : Time) (o : Option RecoveryEntry)
      → HeldBy request o
      → HeldBy request (some (required now retry (entry_or_new index o)))
  unfolding required
  required-HeldBy index now retry none h = absurd h
  required-HeldBy index now retry (some e) h = h

  require-Held :
      (g : RecoveryGuard) (k index : Text) (now retry : Time)
      → Held g id request
      → Held (require g k index now retry) id request
  unfolding require
  require-Held g k index now retry h = ground (
    arith,
    put g (trim_space k)
        (required now retry (entry_or_new (trim_space index) (lookup (trim_space k) g))) h
        (λ p v. required-HeldBy (trim_space index) now retry (lookup (trim_space k) g) (rw p v)),
  )

  delete-Held :
      (g : RecoveryGuard) (k : Text) → k ≢ id → Held g id request → Held (delete k g) id request
  delete-Held g k n h = record {
    held = ground (arith, lookup-delete k id g, h.held);
    is_map = IsMap-delete k g h.is_map;
  }

  restore_entry-Held :
      (g : RecoveryGuard) (k : Text) (e : RecoveryEntry)
      → Held g id request
      → Held (restore_entry g k e) id request
  unfolding restore_entry
  restore_entry-Held g k e h = ground (arith, put g k (record e { ready = false }) h, h.held)

  restore-Held : (g saved : RecoveryGuard) → Held g id request → Held (restore g saved) id request
  unfolding restore
  restore-Held g [] h = h
  restore-Held g ((k, e) ∷ saved) h =
      restore-Held (restore_entry g k e) saved (restore_entry-Held g k e h)

  step-Held :
      (g : RecoveryGuard) (c : Call)
      → request ≢ []
      → Spares id request c
      → Held g id request
      → Held (step g c) id request
  unfolding step finish finish_other clear
  step-Held g (observes s now stale) n c h = observe-Held g s now stale h
  step-Held g (reserves k index r now) n c h = reserve-Held g k index r now n h
  step-Held g (dispatches k r) n c h = dispatched-Held g k r h
  step-Held g (finishes r success now base max) n c h =
      finish_except-Held g r [] success false now base max (inl c) h
  step-Held g (finishes_other r selected now base max) n c h =
      finish_except-Held g r selected false false now base max c h
  step-Held g (requires k index now retry) n c h = require-Held g k index now retry h
  step-Held g (clears k) n c h = delete-Held g (trim_space k) c h
  step-Held g clears_all n c h = absurd c
  step-Held g (restores saved) n c h = restore-Held g saved h

  -- No sequence of calls takes a dispatched permit from its request, unless it ends that request
  -- or clears the credential.
  pub run-Held :
      (g : RecoveryGuard) (cs : List Call)
      → request ≢ []
      → All (Spares id request) cs
      → Held g id request
      → Held (run g cs) id request
  unfolding run
  run-Held g [] n c h = h
  run-Held g (x ∷ cs) n c h = run-Held (step g x) cs n c.1 (step-Held g x n c.0 h)

  reserve_refused :
      (g : RecoveryGuard) (index r : Text) (now : Time)
      → request ≢ []
      → r ≢ request
      → Held g id request
      → reserve g id index r now ≡ (g, false, true)
  unfolding reserve reserve_entry lapse
  reserve_refused g index r now n m h = ground (arith, h.held)

  -- While a request's dispatched permit on a credential has not ended, whatever else happens in
  -- between, every other request that asks for the credential is refused and changes nothing.
  pub reserve_exclusive :
      (g : RecoveryGuard) (cs : List Call) (index r : Text) (now : Time)
      → request ≢ []
      → r ≢ request
      → All (Spares id request) cs
      → Held g id request
      → reserve (run g cs) id index r now ≡ (run g cs, false, true)
  reserve_exclusive g cs index r now n m c h =
      reserve_refused (run g cs) index r now n m (run-Held g cs n c h)
