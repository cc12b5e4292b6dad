-- ===== src/Continuity/Pace.antt =====
-- continuity.go: pace, which books an instant for a request, and the record of recent usage. The host
-- inventory is seen as the auth index of each credential.
use cpa_codex_quota_schedule.Common.{
  ◌+◌, ◌-◌, max, Bool, true, false, not, ◌&&◌, ◌||◌, List, [], ◌∷◌, ◌++◌, Option, none, some, ltb,
  leb, if◌then◌else◌, Text, is_empty, same, byte_len, trim_space, Dict, lookup, insert, delete,
  revise, Time, Duration, before, after, second, length, drop,
}
use cpa_codex_quota_schedule.Continuity.Gate.{
  Scope, Reservation, Gate, usage_horizon, max_reservations, same_scope, scopes_overlap,
  recompute_next, is_set,
}

-- A reservation that was not used in time lapses.
abbrev pub lapsed : Duration → Time → Text → Reservation → Option Reservation
lapsed max_wait now id r = if not r.dispatched && after now (r.at + max_wait) then none else some r

unfoldable pub drop_lapsed : Gate → Duration → Time → Gate
drop_lapsed g max_wait now = record g { reservations = revise (lapsed max_wait now) g.reservations }

abbrev pub time_of : Option Time → Time
time_of none = 0
time_of (some t) = t

unfoldable pub after_dispatches : Dict Time → Duration → Scope → Time → Time
after_dispatches last interval [] at = at
after_dispatches last interval ((id, c) ∷ scope) at =
    let next = time_of (lookup id last) + interval in
    after_dispatches last interval scope (if after next at then next else at)

unfoldable pub after_reservations : Dict Reservation → Duration → Scope → Time → Time
after_reservations [] interval scope at = at
after_reservations ((id, r) ∷ m) interval scope at =
    let next = r.at + max interval r.interval in
    after_reservations m interval scope
      (if not r.dispatched && scopes_overlap r.scope scope && after next at then next else at)

-- The first instant that keeps the interval to what the scope has used and reserved.
unfoldable pub first_slot : Gate → Duration → Time → Time
first_slot g interval now =
    let at =
      if is_set g.current_scope
      then after_reservations g.reservations interval g.current_scope
          (after_dispatches g.last_by_auth interval g.current_scope now)
      else g.next_permit in
    if before at now then now else at

unfoldable pub book : Gate → Text → Duration → Duration → Duration → Time → Gate × Duration
book g id interval poll max_wait now =
    let at = first_slot g interval now in
    if leb max_reservations (length g.reservations) || ltb max_wait (at - now) then (g, poll) else (
      record g {
        next_permit = at + interval;
        last_interval = interval;
        reservations =
            insert id
              (record { at = at; dispatched = false; scope = g.current_scope; interval = interval })
              g.reservations;
      },
      at - now,
    )

-- A reservation of the current scope, or one that was dispatched, is kept, and answers with the
-- time that is left; another one is booked anew.
unfoldable pub pace_held :
    Gate → Text → Duration → Duration → Duration → Time → Option Reservation → Gate × Duration
pace_held g id interval poll max_wait now none = book g id interval poll max_wait now
pace_held g id interval poll max_wait now (some r) =
    if not r.dispatched && not (same_scope r.scope g.current_scope)
    then book (recompute_next (record g { reservations = delete id g.reservations }) now) id
        interval poll max_wait now
    else (g, r.at - now)

-- Returns how long the request has to wait.
unfoldable pub pace : Gate → Text → Duration → Duration → Duration → Time → Gate × Duration
pace g raw interval poll max_wait now =
    let id = trim_space raw in
    if is_empty id || ltb 512 (byte_len id) || ltb interval second
    then (g, 0)
    else (let h = drop_lapsed g max_wait now in
        pace_held h id interval poll max_wait now (lookup id h.reservations))

unfoldable pub drop_old : Time → List Time → List Time
drop_old now [] = []
drop_old now (t ∷ ts) =
    let rest = drop_old now ts in if ltb usage_horizon (now - t) then rest else t ∷ ts

abbrev pub last_512 : List Time → List Time
last_512 ts = drop (length ts - 512) ts

abbrev pub times_of : Option (List Time) → List Time
times_of none = []
times_of (some ts) = ts

abbrev pub is_bound : Option Text → Text → Bool
is_bound none index = is_empty index
is_bound (some i) index = same i index

-- `is_valid` says that the quota and the identity of the credential agree on the index.
unfoldable pub note_usage : Gate → Text → Text → Bool → Time → Gate
note_usage g id index is_valid now =
    if is_empty id || not is_valid
    then g
    else (let kept =
          if is_bound (lookup id g.usage_bindings) index
          then times_of (lookup id g.usage)
          else [] in
        record g {
          usage = insert id (last_512 (drop_old now kept ++ now ∷ [])) g.usage;
          usage_bindings = insert id index g.usage_bindings;
        })

abbrev pub text_of : Option Text → Text
text_of none = []
text_of (some t) = t

-- Does the inventory hold the credential under another index, or not at all?
abbrev pub is_gone : Dict Text → Text → Text → Bool
is_gone inventory id index = elim (lookup id inventory) [
  | none ↦ true
  | some i ↦ not (same index (trim_space i))
]

unfoldable pub prune_usage : List (Text × List Time) → Dict Text → Gate → Gate
prune_usage [] inventory g = g
prune_usage ((id, ts) ∷ usage) inventory g = prune_usage usage inventory (
    if is_gone inventory id (text_of (lookup id g.usage_bindings))
    then record g {
      usage = delete id g.usage;
      usage_bindings = delete id g.usage_bindings;
      cycles = delete id g.cycles;
      last_by_auth = delete id g.last_by_auth;
    }
    else g)

unfoldable pub prune_cycles : Scope → Dict Text → Gate → Gate
prune_cycles [] inventory g = g
prune_cycles ((id, c) ∷ cycles) inventory g = prune_cycles cycles inventory (
    if is_gone inventory id c.index
    then record g { cycles = delete id g.cycles; last_by_auth = delete id g.last_by_auth }
    else g)

unfoldable pub prune_continuity : Gate → Dict Text → Gate
prune_continuity g inventory =
    let h = prune_usage g.usage inventory g in prune_cycles h.cycles inventory h
