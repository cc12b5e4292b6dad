-- ===== src/Concurrency/Permits.antt =====
-- concurrency.go: the permit and the probe of a request that concurrencyAfter lets out.
use cpa_codex_quota_schedule.Common.{
  ◌*◌, Bool, true, false, not, ◌&&◌, [], none, some, ◌==◌, ◌≡◌, ◌≢◌, ◌⊎◌, inl, inr, refl, sym, ap,
  ◌∙◌, arith, if◌then◌else◌, Text, is_empty, trim_space, lookup, lookup-insert_self, Time, minute,
  Bool-cases, Option-cases,
}
use cpa_codex_quota_schedule.Recovery.Guard.{
  RecoveryEntry, RecoveryGuard, Reservation, refused, kept, claimed, reserve, reserve_entry,
  reserve_store, dispatched,
}
use cpa_codex_quota_schedule.Recovery.Lifecycle.{finish_other}
use cpa_codex_quota_schedule.Ban.Entry.{BanEntry, is_half_open, normalize_ban_entry}
use cpa_codex_quota_schedule.Ban.Store.{
  BanState, Admission, denied, owned, bound, started, admit, admit_store, try_start_probe_owned,
}
use cpa_codex_quota_schedule.Ban.Completion.{
  complete_owned_probe_except, owns, mark_probe_dispatched,
}
use cpa_codex_quota_schedule.Concurrency.Rejected.{System}
use cpa_codex_quota_schedule.Concurrency.Slot.{Settings, Selected, passed, is_some}
use cpa_codex_quota_schedule.Concurrency.After.{enter_quarantine, check_quota}

-- The guard lets the credential go freely, or to this request, which has gone out.
abbrev pub IsGuarded : RecoveryGuard → Text → Text → Type 0
IsGuarded g id request =
    (lookup id g ≡ none)
    ⊎ ((e : RecoveryEntry) × (lookup id g ≡ some e) × (e.owner ≡ request) × (e.dispatched ≡ true))

-- The credential is not quarantined, or this request owns its half-open probe and has gone out.
abbrev pub IsProbed : BanState → Text → Text → Type 0
IsProbed s id request =
    (lookup id s.bans ≡ none)
    ⊎ ((e : BanEntry) × (lookup id s.bans ≡ some e)
        × (is_half_open e.phase ≡ true)
        × (e.probe_owner ≡ request)
        × (e.probe_dispatched ≡ true))

reserve-guarded :
    (g : RecoveryGuard) (id index request : Text) (now : Time)
    → (reserve g id index request now).2 ≡ false
    → lookup id (reserve g id index request now).0 ≡ none
unfolding reserve
reserve-guarded g id index request now e = elim (Option-cases (lookup id g)) [
  | inl n ↦ ground arith
  | inr (x, q) ↦ absurd (ground (arith, guarded (reserve_entry x id index request now)))
]
  where
    guarded : (r : Reservation) → (reserve_store g id r).2 ≡ true
    guarded refused = refl
    guarded kept = refl
    guarded (claimed x) = refl

reserve-held :
    (g : RecoveryGuard) (id index request : Text) (now : Time)
    → (reserve g id index request now).2 ≡ true
    → (x : RecoveryEntry) × (lookup id (reserve g id index request now).0 ≡ some x)
unfolding reserve
reserve-held g id index request now e = elim (Option-cases (lookup id g)) [
  | inl n ↦ absurd (ground arith)
  | inr (x, q) ↦ rw (q, reserve) (still x q (reserve_entry x id index request now))
]
  where
    still :
        (x : RecoveryEntry)
        → lookup id g ≡ some x
        → (r : Reservation) → (y : RecoveryEntry) × (lookup id (reserve_store g id r).0 ≡ some y)
    still x q refused = (x, q)
    still x q kept = (x, q)
    still x q (claimed y) = (y, lookup-insert_self id y g)

dispatched-held :
    (g : RecoveryGuard) (id request : Text) (x : RecoveryEntry)
    → lookup id g ≡ some x
    → (dispatched g id request).1 ≡ true
    → IsGuarded (dispatched g id request).0 id request
unfolding dispatched
dispatched-held g id request x l e =
    let y = record x { dispatched = true } in
    inr (y, ground (arith, lookup-insert_self id y g), ground arith, refl)

-- The normal form of an entry in its half-open phase has the owner and the phase of the entry.
normalize_ban_entry-half_open :
    (e : BanEntry)
    → is_half_open (normalize_ban_entry e).phase ≡ true
    → (is_half_open e.phase ≡ true) × (e.probe_owner ≡ (normalize_ban_entry e).probe_owner)
unfolding normalize_ban_entry
normalize_ban_entry-half_open e h = ground arith

admit-owned :
    (s : BanState) (id owner : Text) (raw : BanEntry)
    → lookup id s.bans ≡ some raw
    → (a : Admission)
    → ((e : BanEntry) → a ≡ owned → (is_half_open raw.phase ≡ true) × (raw.probe_owner ≡ owner))
    → ((e : BanEntry)
        → (a ≡ bound e) ⊎ (a ≡ started e)
        → (is_half_open e.phase ≡ true) × (e.probe_owner ≡ owner))
    → (admit_store s id a).1 ≡ true
    → (e : BanEntry) × (lookup id (admit_store s id a).0.bans ≡ some e)
      × (is_half_open e.phase ≡ true)
      × (e.probe_owner ≡ owner)
admit-owned s id owner raw l denied f g a = cc
admit-owned s id owner raw l owned f g a = let q = f raw refl in (raw, l, q.0, q.1)
admit-owned s id owner raw l (bound e) f g a =
    let q = g e (inl refl) in (e, lookup-insert_self id e s.bans, q.0, q.1)
admit-owned s id owner raw l (started e) f g a =
    let q = g e (inr refl) in (e, lookup-insert_self id e s.bans, q.0, q.1)

admit-raw :
    (raw : BanEntry) (owner : Text) (now lease : Time)
    → admit raw owner now lease ≡ owned
    → (is_half_open raw.phase ≡ true) × (raw.probe_owner ≡ owner)
unfolding admit
admit-raw raw owner now lease p = ground (arith, normalize_ban_entry-half_open raw)

admit-new :
    (raw : BanEntry) (owner : Text) (now lease : Time) (e : BanEntry)
    → (admit raw owner now lease ≡ bound e) ⊎ (admit raw owner now lease ≡ started e)
    → (is_half_open e.phase ≡ true) × (e.probe_owner ≡ owner)
unfolding admit
admit-new raw owner now lease e (inl p) = ground arith
admit-new raw owner now lease e (inr p) = ground arith

-- The credential is free of quarantine or its half-open probe is this request's.
abbrev pub IsOwned : BanState → Text → Text → Type 0
IsOwned s id owner =
    (lookup id s.bans ≡ none)
    ⊎ ((e : BanEntry) × (lookup id s.bans ≡ some e)
        × (is_half_open e.phase ≡ true)
        × (e.probe_owner ≡ owner))

try_start-IsOwned :
    (s : BanState) (id owner : Text) (now lease : Time)
    → trim_space id ≡ id
    → (try_start_probe_owned s id owner now lease).1 ≡ true
    → IsOwned (try_start_probe_owned s id owner now lease).0 id owner
unfolding try_start_probe_owned
try_start-IsOwned s id owner now lease t a = elim (Bool-cases (is_empty id)) [
  | inl y ↦ absurd (ground arith)
  | inr n ↦ elim (Option-cases (lookup id s.bans)) [
    | inl m ↦ inl (ground arith)
    | inr (raw, l) ↦
        let q =
          admit-owned s id owner raw l
            (admit raw owner now (if lease == 0 then 15 * minute else lease))
            (λ e. admit-raw raw owner now (if lease == 0 then 15 * minute else lease))
            (admit-new raw owner now (if lease == 0 then 15 * minute else lease)) (ground arith) in
        inr (q.0, ground (arith, q.1), q.2, q.3)
  ]
]

mark-IsProbed :
    (s : BanState) (id owner : Text)
    → owner ≢ []
    → IsOwned s id owner
    → IsProbed (mark_probe_dispatched s id owner) id owner
unfolding mark_probe_dispatched owns
mark-IsProbed s id owner n (inl f) = inl (ground arith)
mark-IsProbed s id owner n (inr (e, l, h, o)) =
    let y = record e { probe_dispatched = true } in
    inr (y, ground (arith, lookup-insert_self id y s.bans), h, o, refl)

-- A request that the quarantine lets out.
enter_quarantine_out :
    (s : System) (c : Settings) (q : Selected) (is_guarded is_tracked : Bool) (now : Time)
    → (enter_quarantine s c q is_guarded is_tracked now).1 ≡ passed
    → let started = try_start_probe_owned s.bans q.auth_id q.request_id now c.probe_timeout in
      let sent = dispatched s.guard q.auth_id q.request_id in
      (started.1 ≡ true)
      × (is_guarded && not sent.1 ≡ false)
      × ((enter_quarantine s c q is_guarded is_tracked now).0.guard
          ≡ (if is_guarded then sent.0 else s.guard))
      × ((enter_quarantine s c q is_guarded is_tracked now).0.bans
          ≡ mark_probe_dispatched started.0 q.auth_id q.request_id)
unfolding enter_quarantine
enter_quarantine_out s c q is_guarded is_tracked now p =
    (ground arith, ground arith, ground arith, ground arith)

enter_quarantine-passed :
    (s : System) (c : Settings) (q : Selected) (is_guarded is_tracked : Bool) (now : Time)
    → trim_space q.auth_id ≡ q.auth_id
    → q.request_id ≢ []
    → (is_guarded ≡ false → lookup q.auth_id s.guard ≡ none)
    → (is_guarded ≡ true → (x : RecoveryEntry) × (lookup q.auth_id s.guard ≡ some x))
    → (enter_quarantine s c q is_guarded is_tracked now).1 ≡ passed
    → IsGuarded (enter_quarantine s c q is_guarded is_tracked now).0.guard q.auth_id q.request_id
      × IsProbed (enter_quarantine s c q is_guarded is_tracked now).0.bans q.auth_id q.request_id
enter_quarantine-passed s c q false is_tracked now t n f g p =
    let o = enter_quarantine_out s c q false is_tracked now p in
    let started = try_start_probe_owned s.bans q.auth_id q.request_id now c.probe_timeout in
    (
      rw o.2 (inl (f refl)),
      rw o.3 (
          mark-IsProbed started.0 q.auth_id q.request_id n
            (try_start-IsOwned s.bans q.auth_id q.request_id now c.probe_timeout t o.0)),
    )
enter_quarantine-passed s c q true is_tracked now t n f g p =
    let o = enter_quarantine_out s c q true is_tracked now p in
    let started = try_start_probe_owned s.bans q.auth_id q.request_id now c.probe_timeout in
    let x = g refl in
    (
      rw o.2 (dispatched-held s.guard q.auth_id q.request_id x.0 x.1 (ground arith)),
      rw o.3 (
          mark-IsProbed started.0 q.auth_id q.request_id n
            (try_start-IsOwned s.bans q.auth_id q.request_id now c.probe_timeout t o.0)),
    )

-- The credential's turn: what is left once the guard has let the request in.
check_quota_out :
    (s : System) (c : Settings) (q : Selected) (index : Text) (now : Time)
    → q.auth_id ≢ []
    → c.enabled ≡ true
    → (check_quota s c q index now).1 ≡ passed
    → let others = finish_other s.guard q.request_id q.auth_id now c.half_open_retry c.max_ban in
      let r = reserve others q.auth_id index q.request_id now in
      let bans =
        (complete_owned_probe_except s.bans q.request_id q.auth_id false false now c.half_open_retry
          c.max_ban).0 in
      check_quota s c q index now
      ≡ enter_quarantine
          (record s { guard = r.0; bans = bans })
          c
          q
          r.2
          (is_some (lookup q.request_id s.gate.requests))
          now
unfolding check_quota
check_quota_out s c q index now a e p = elim (Bool-cases (is_empty q.auth_id)) [
  | inl y ↦ absurd (ground arith)
  | inr y ↦ ground arith
]

enter_quarantine-gate :
    (s : System) (c : Settings) (q : Selected) (is_guarded is_tracked : Bool) (now : Time)
    → (enter_quarantine s c q is_guarded is_tracked now).0.gate ≡ s.gate
unfolding enter_quarantine
enter_quarantine-gate s c q is_guarded is_tracked now = ground arith

pub check_quota-passed :
    (s : System) (c : Settings) (q : Selected) (index : Text) (now : Time)
    → trim_space q.auth_id ≡ q.auth_id
    → q.auth_id ≢ []
    → q.request_id ≢ []
    → c.enabled ≡ true
    → (check_quota s c q index now).1 ≡ passed
    → IsGuarded (check_quota s c q index now).0.guard q.auth_id q.request_id
      × IsProbed (check_quota s c q index now).0.bans q.auth_id q.request_id
      × ((check_quota s c q index now).0.gate ≡ s.gate)
check_quota-passed s c q index now t a n e p =
    let out = check_quota_out s c q index now a e p in
    let others = finish_other s.guard q.request_id q.auth_id now c.half_open_retry c.max_ban in
    let r = reserve others q.auth_id index q.request_id now in
    let bans =
      (complete_owned_probe_except s.bans q.request_id q.auth_id false false now c.half_open_retry
        c.max_ban).0 in
    let is_tracked = is_some (lookup q.request_id s.gate.requests) in
    let u = record s { guard = r.0; bans = bans } in
    let h =
      enter_quarantine-passed u c q r.2 is_tracked now t n
        (reserve-guarded others q.auth_id index q.request_id now)
        (reserve-held others q.auth_id index q.request_id now) (sym (ap (λ x. x.1) out) ∙ p) in
    rw out (h.0, h.1, enter_quarantine-gate u c q r.2 is_tracked now)
