-- ===== src/Concurrency/Released.antt =====
-- concurrency.go: what a request that has ended leaves behind.
use cpa_codex_quota_schedule.Common.{
  Bool, false, [], ◌∷◌, Option, none, some, ◌≡◌, ◌≢◌, ◌⊎◌, inl, inr, arith, Text, text_discrete,
  is_empty, trim_space, Dict, lookup, lookup-delete, revise, All, Time, Duration, Bool-cases,
  Option-cases,
}
use cpa_codex_quota_schedule.Recovery.Guard.{RecoveryEntry, RecoveryGuard}
use cpa_codex_quota_schedule.Recovery.Lifecycle.{
  finish, finish_except, finish_entry, is_kept, failed,
}
use cpa_codex_quota_schedule.Ban.Entry.{BanEntry, is_half_open}
use cpa_codex_quota_schedule.Ban.Store.{BanState}
use cpa_codex_quota_schedule.Ban.Completion.{
  complete_owned_probe, complete_owned_probe_except, complete_entry, is_skipped, reopened,
}
use cpa_codex_quota_schedule.Continuity.Gate as Pacing
use cpa_codex_quota_schedule.Concurrency.Ledger.{Gate, release, remember_completed}
use cpa_codex_quota_schedule.Concurrency.Complete.{
  Runtime, Completion, has_succeeded, complete_request, handle_complete,
}

-- Every entry that the loop leaves has the property, if the loop's body makes it so.
All-revise :
    {V : Type 0} (P : Text → V → Type 0) (f : Text → V → Option V) (m : Dict V)
    → ((id : Text) (e v : V) → f id e ≡ some v → P id v)
    → All (λ e. P e.0 e.1) (revise f m)
unfolding revise
All-revise P f [] h = tt
All-revise P f ((id, e) ∷ m) h = elim (Option-cases (f id e)) [
  | inl n ↦ rw (n, revise) (All-revise P f m h)
  | inr (v, s) ↦ rw (s, revise) (h id e v s, All-revise P f m h)
]

-- The entry of a named credential does not belong to the request.
abbrev NotOwned : Text → Text → RecoveryEntry → Type 0
NotOwned request id e = (id ≡ []) ⊎ (e.owner ≢ request)

-- The entry of a named credential holds no probe of the request.
abbrev NotProbed : Text → Text → BanEntry → Type 0
NotProbed request id e = (id ≡ []) ⊎ ((is_half_open e.phase ≡ false) ⊎ (e.probe_owner ≢ request))

finish_entry-NotOwned :
    (request : Text) (success : Bool) (now : Time) (base max : Duration) (id : Text)
    (e v : RecoveryEntry)
    → request ≢ []
    → finish_entry request [] success false now base max id e ≡ some v
    → NotOwned request id v
unfolding finish_entry is_kept failed
finish_entry-NotOwned request success now base max id e v n s = elim (text_discrete id []) [
  | yes p ↦ inl p
  | no q ↦ inr (λ o. ground (arith, o))
]

complete_entry-NotProbed :
    (request : Text) (success : Bool) (now : Time) (base max : Duration) (id : Text)
    (e v : BanEntry)
    → complete_entry request [] success false now base max id e ≡ some v
    → NotProbed request id v
unfolding complete_entry is_skipped reopened
complete_entry-NotProbed request success now base max id e v s = elim (text_discrete id []) [
  | yes p ↦ inl p
  | no q ↦ elim (Bool-cases (is_half_open v.phase)) [
    | inr h ↦ inr (inl h)
    | inl h ↦ inr (inr (λ o. ground (arith, o)))
  ]
]

finish-NotOwned :
    (g : RecoveryGuard) (request : Text) (success : Bool) (now : Time) (base max : Duration)
    → request ≢ []
    → All (λ e. NotOwned request e.0 e.1) (finish g request success now base max).0
unfolding finish finish_except
finish-NotOwned g request success now base max n = elim (Bool-cases (is_empty request)) [
  | inl y ↦ absurd (ground arith)
  | inr y ↦
      rw (y, finish, finish_except)
        (All-revise (NotOwned request) (finish_entry request [] success false now base max) g
          (λ id e v s. finish_entry-NotOwned request success now base max id e v n s))
]

complete_owned_probe-NotProbed :
    (b : BanState) (request : Text) (success : Bool) (now : Time) (base max : Duration)
    → request ≢ []
    → All
        (λ e. NotProbed request e.0 e.1)
        (complete_owned_probe b request success now base max).0.bans
unfolding complete_owned_probe complete_owned_probe_except
complete_owned_probe-NotProbed b request success now base max n =
    elim (Bool-cases (is_empty request)) [
      | inl y ↦ absurd (ground arith)
      | inr y ↦
          rw (y, complete_owned_probe, complete_owned_probe_except)
            (All-revise (NotProbed request) (complete_entry request [] success false now base max)
              b.bans (λ id e v s. complete_entry-NotProbed request success now base max id e v s))
    ]

release-unregistered : (g : Gate) (id : Text) → lookup id (release g id).0.requests ≡ none
unfolding release
release-unregistered g id = ground (arith, lookup-delete id id (remember_completed g id).requests)

complete-unpaced :
    (p : Pacing.Gate) (id : Text) (now : Time)
    → lookup (trim_space id) (Pacing.complete p id now).reservations ≡ none
unfolding Pacing.complete Pacing.recompute_next
complete-unpaced p id now =
    ground (arith, lookup-delete (trim_space id) (trim_space id) p.reservations)

-- Nothing of the request is left: the ledger does not hold it, no pacing is reserved for it, no
-- permit of a named credential is its own and neither is a half-open probe.
pub record IsGone (request : Text) (s : Runtime) : Type 0 where
  pub unregistered : lookup request s.system.gate.requests ≡ none
  pub unpaced : lookup (trim_space request) s.pacing.reservations ≡ none
  pub unguarded : All (λ e. NotOwned request e.0 e.1) s.system.guard
  pub unprobed : All (λ e. NotProbed request e.0 e.1) s.system.bans.bans

-- However a request with an id ends, nothing of it is left.
pub handle_complete-IsGone :
    (s : Runtime) (c : Completion) (now : Time) (base max : Duration)
    → c.request_id ≢ []
    → IsGone c.request_id (handle_complete s c now base max).0
unfolding handle_complete complete_request
handle_complete-IsGone s c now base max n = record {
  unregistered = release-unregistered s.system.gate c.request_id;
  unpaced = complete-unpaced s.pacing c.request_id now;
  unguarded = finish-NotOwned s.system.guard c.request_id (has_succeeded c) now base max n;
  unprobed =
      complete_owned_probe-NotProbed s.system.bans c.request_id (has_succeeded c) now base max n;
}
