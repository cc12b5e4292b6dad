-- ===== src/Continuity/Promise.antt =====
-- continuity.go: a request that comes back after the wait that pace has given it.
use cpa_codex_quota_schedule.Common.{
  ◌+◌, ◌-◌, ◌≤◌, true, false, ◌||◌, [], ◌∷◌, Option, none, some, ltb, ◌≡◌, ◌≢◌, ◌⊎◌, inl, inr, refl,
  arith, Text, is_empty, trim_space, byte_len, Dict, lookup, revise, IsMap, Time, Duration, second,
  All, Bool-cases, lookup-insert_self, lookup-members, List,
}
use cpa_codex_quota_schedule.Continuity.Gate.{
  Cycle, Scope, Reservation, Gate, same_reset, same_cycle, is_within, same_scope,
}
use cpa_codex_quota_schedule.Continuity.Calls.{Call, run}
use cpa_codex_quota_schedule.Continuity.Kept.{Spares, lookup-revise_kept, run-Promised}
use cpa_codex_quota_schedule.Continuity.Pace.{
  lapsed, drop_lapsed, first_slot, book, pace_held, pace,
}

-- A cycle that is the same as itself: without a reset only a weekly one is.
abbrev pub IsAnchored : Cycle → Type 0
IsAnchored c = (c.weekly_only ≡ true) ⊎ (c.reset ≢ 0)

same_cycle_self : (c : Cycle) → IsAnchored c → same_cycle c c ≡ true
unfolding same_cycle same_reset
same_cycle_self c h = ground arith

is_within-members :
    (a m : Scope)
    → All (λ e. lookup e.0 m ≡ some e.1) a
    → All (λ e. IsAnchored e.1) a
    → is_within a m ≡ true
unfolding is_within
is_within-members [] m h k = refl
is_within-members ((j, d) ∷ a) m h k =
    rw (h.0, same_cycle_self d k.0, is_within-members a m h.1 k.1) refl

same_scope_self : (m : Scope) → IsMap m → All (λ e. IsAnchored e.1) m → same_scope m m ≡ true
unfolding same_scope
same_scope_self m h k = ground (arith, is_within-members m m (lookup-members m h) k)

lookup-revise-none :
    (f : Text → Reservation → Option Reservation) (id : Text) (m : Dict Reservation)
    → lookup id m ≡ none
    → lookup id (revise f m) ≡ none
unfolding lookup revise
lookup-revise-none f id [] e = refl
lookup-revise-none f id ((k, r) ∷ m) e = ground (arith, lookup-revise-none f id m)

-- What a booking that succeeded has booked.
book_lem :
    (g : Gate) (id : Text) (interval poll max_wait : Duration) (now : Time) (r : Reservation)
    → lookup id g.reservations ≡ none
    → lookup id (book g id interval poll max_wait now).0.reservations ≡ some r
    → (r.dispatched ≡ false)
      × (r.scope ≡ g.current_scope)
      × ((book g id interval poll max_wait now).0.current_scope ≡ g.current_scope)
      × ((book g id interval poll max_wait now).1 ≡ r.at - now)
      × (r.at - now ≤ max_wait)
unfolding book
book_lem g id interval poll max_wait now r n e =
    let s : Reservation = record {
      at = first_slot g interval now;
      dispatched = false;
      scope = g.current_scope;
      interval = interval;
    } in
    ground (arith, lookup-insert_self id s g.reservations)

pace_lem :
    (g : Gate) (raw : Text) (interval poll max_wait : Duration) (now : Time) (r : Reservation)
    → lookup (trim_space raw) g.reservations ≡ none
    → lookup (trim_space raw) (pace g raw interval poll max_wait now).0.reservations ≡ some r
    → (r.dispatched ≡ false)
      × (r.scope ≡ g.current_scope)
      × ((pace g raw interval poll max_wait now).0.current_scope ≡ g.current_scope)
      × ((pace g raw interval poll max_wait now).1 ≡ r.at - now)
      × (r.at - now ≤ max_wait)
      × ((is_empty (trim_space raw) || ltb 512 (byte_len (trim_space raw)) || ltb interval second)
          ≡ false)
unfolding pace pace_held drop_lapsed
pace_lem g raw interval poll max_wait now r n e =
    let m = lookup-revise-none (lapsed max_wait now) (trim_space raw) g.reservations n in
    elim (Bool-cases
      (is_empty (trim_space raw) || ltb 512 (byte_len (trim_space raw)) || ltb interval second)) [
        | inl b ↦ absurd (ground arith)
        | inr b ↦ ground (
          arith,
          m,
          book_lem (drop_lapsed g max_wait now) (trim_space raw) interval poll max_wait now r m,
        )
      ]

pace-held :
    (g : Gate) (raw : Text) (interval poll max_wait : Duration) (now : Time) (r : Reservation)
    → lookup (trim_space raw) g.reservations ≡ some r
    → same_scope r.scope g.current_scope ≡ true
    → now ≤ r.at + max_wait
    → (is_empty (trim_space raw) || ltb 512 (byte_len (trim_space raw)) || ltb interval second)
      ≡ false
    → pace g raw interval poll max_wait now ≡ (drop_lapsed g max_wait now, r.at - now)
unfolding pace pace_held drop_lapsed
pace-held g raw interval poll max_wait now r e s l b =
    ground (arith, lookup-revise_kept (lapsed max_wait now) (trim_space raw) r g.reservations e)

-- A request without a reservation that pace books, for a scope that holds each credential once and
-- with a weekly cycle or a known reset: it is told a wait of at most max_wait. When it asks again with
-- the same interval and max_wait, after that wait and no later than max_wait after its instant, it
-- need not wait any more, if what the gate was asked in between are paces, completions and dispatches
-- of other requests, records of usage and prunes by the inventory, each such pace no later than its
-- own max_wait after the instant of this request.
pub pace-pace :
    (g : Gate) (raw : Text) (interval poll max_wait : Duration) (now again : Time) (r : Reservation)
    (cs : List Call)
    → IsMap g.current_scope
    → All (λ e. IsAnchored e.1) g.current_scope
    → lookup (trim_space raw) g.reservations ≡ none
    → lookup (trim_space raw) (pace g raw interval poll max_wait now).0.reservations ≡ some r
    → All (Spares (trim_space raw) r) cs
    → now + (pace g raw interval poll max_wait now).1 ≤ again
    → again ≤ r.at + max_wait
    → let first = pace g raw interval poll max_wait now in
      (first.1 ≤ max_wait) × ((pace (run first.0 cs) raw interval poll max_wait again).1 ≡ 0)
pace-pace g raw interval poll max_wait now again r cs m a n e c l k =
    let first = pace g raw interval poll max_wait now in
    let p = pace_lem g raw interval poll max_wait now r n e in
    let s = same_scope_self g.current_scope m a in
    let h =
      run-Promised (trim_space raw) r g.current_scope first.0 cs c
        (record { booked = e; undispatched = ground (arith, p); at_scope = ground (arith, p) }) in
    let q = pace-held (run first.0 cs) raw interval poll max_wait again r h.booked in
    (omega (arith, p), ground (arith, p, s, q, h.at_scope))
