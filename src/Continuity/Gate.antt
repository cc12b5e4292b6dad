-- ===== src/Continuity/Gate.antt =====
-- continuity.go: the pacing reservations, their scopes and what removes them. Left out are the
-- diagnostics and the estimate of the interval in floating point.
use cpa_codex_quota_schedule.Common.{
  ℕ, ◌+◌, ◌*◌, Bool, true, false, not, ◌&&◌, ◌||◌, List, [], ◌∷◌, Option, none, some, leb, ◌==◌,
  if◌then◌else◌, Text, is_empty, same, trim_space, Dict, lookup, insert, delete, revise, Time,
  Duration, is_zero, before, after, second, minute, length, any,
}
use cpa_codex_quota_schedule.Quota.Cycle.{apart}
use cpa_codex_quota_schedule.Quota.Normalize.{same_bool}

pub record Cycle : Type 0 where
  pub index : Text
  pub reset : Time
  pub weekly_only : Bool

-- The credentials that share a reservation, with the quota cycle of each.
abbrev pub Scope : Type 0
Scope = Dict Cycle

-- The maps reservations, dispatched, scopes and intervals, joined by their key: the last three are
-- written only for a key that the first has, and an entry is deleted from all at once.
pub record Reservation : Type 0 where
  pub at : Time
  pub dispatched : Bool
  pub scope : Scope
  pub interval : Duration

pub record Gate : Type 0 where
  pub reservations : Dict Reservation
  pub cycles : Scope
  pub current_scope : Scope
  pub last_by_auth : Dict Time
  pub usage : Dict (List Time)
  pub usage_bindings : Dict Text
  pub next_permit : Time
  pub last_permit : Time
  pub last_interval : Duration

-- quotaRunwayResetTolerance of quota_runway.go.
abbrev pub reset_tolerance : Duration
reset_tolerance = 5 * second

abbrev pub usage_horizon : Duration
usage_horizon = 15 * minute

abbrev pub max_reservations : ℕ
max_reservations = 2048

-- quotaRunwaySameReset.
unfoldable pub same_reset : Time → Time → Bool
same_reset a b = not (is_zero a) && not (is_zero b) && leb (apart a b) reset_tolerance

unfoldable pub same_cycle : Cycle → Cycle → Bool
same_cycle a b =
    same a.index b.index
    && same_bool a.weekly_only b.weekly_only
    && (a.weekly_only || same_reset a.reset b.reset)

abbrev pub agrees : Cycle → Option Cycle → Bool
agrees c none = false
agrees c (some d) = same_cycle c d

unfoldable pub is_within : Scope → Scope → Bool
is_within [] b = true
is_within ((id, c) ∷ a) b = agrees c (lookup id b) && is_within a b

unfoldable pub same_scope : Scope → Scope → Bool
same_scope a b = length a == length b && is_within a b

abbrev pub is_some : Option Cycle → Bool
is_some none = false
is_some (some c) = true

unfoldable pub scopes_overlap : Scope → Scope → Bool
scopes_overlap [] b = false
scopes_overlap ((id, c) ∷ a) b = is_some (lookup id b) || scopes_overlap a b

-- The latest end of a reservation that is not dispatched yet, from the given instant on.
unfoldable pub latest_end : Duration → Time → Dict Reservation → Time
latest_end interval next [] = next
latest_end interval next ((id, r) ∷ m) =
    latest_end interval
      (if not r.dispatched && after (r.at + interval) next then r.at + interval else next) m

unfoldable pub recompute_next : Gate → Time → Gate
recompute_next g now =
    let next = g.last_permit + g.last_interval in
    record g {
      next_permit =
          latest_end g.last_interval (if before next now then now else next) g.reservations;
    }

unfoldable pub complete : Gate → Text → Time → Gate
complete g id now =
    recompute_next (record g { reservations = delete (trim_space id) g.reservations }) now

unfoldable pub set_all : Time → Scope → Dict Time → Dict Time
set_all t [] m = m
set_all t ((id, c) ∷ scope) m = set_all t scope (insert id t m)

-- `selected` is empty when the caller does not know the credential.
unfoldable pub dispatch : Gate → Text → Text → Time → Gate
dispatch g id selected now = elim (lookup (trim_space id) g.reservations) [
  | none ↦ g
  | some r ↦
      if r.dispatched
      then g
      else recompute_next
          (record g {
            reservations = insert (trim_space id) (record r { dispatched = true }) g.reservations;
            last_permit = now;
            last_by_auth =
                if is_empty (trim_space selected)
                then set_all now r.scope g.last_by_auth
                else insert (trim_space selected) now g.last_by_auth;
          })
          now
]

abbrev pub dispatched_only : Text → Reservation → Option Reservation
dispatched_only id r = if r.dispatched then some r else none

unfoldable pub clear_pacing : Gate → Time → Gate
clear_pacing g now = record g {
  reservations = revise dispatched_only g.reservations;
  last_permit = 0;
  last_interval = 0;
  next_permit = now;
  cycles = [];
  current_scope = [];
  last_by_auth = [];
}

abbrev pub known_other : Cycle → Option Cycle → Bool
known_other c none = false
known_other c (some old) = not (same_cycle old c)

abbrev pub known_same : Cycle → Option Cycle → Bool
known_same c none = false
known_same c (some old) = same_cycle old c

-- The credentials of the scope whose cycle has changed.
unfoldable pub changed_ids : Scope → Scope → List Text
changed_ids cycles [] = []
changed_ids cycles ((id, c) ∷ scope) =
    let rest = changed_ids cycles scope in
    if known_other c (lookup id cycles) then id ∷ rest else rest

-- A cycle that is still the same keeps its first anchor.
unfoldable pub update_cycles : Scope → Scope → Scope
update_cycles cycles [] = cycles
update_cycles cycles ((id, c) ∷ scope) =
    update_cycles (if known_same c (lookup id cycles) then cycles else insert id c cycles) scope

unfoldable pub delete_all : List Text → Dict Time → Dict Time
delete_all [] m = m
delete_all (id ∷ ids) m = delete_all ids (delete id m)

abbrev pub touches : List Text → Scope → Bool
touches ids [] = false
touches ids ((id, c) ∷ scope) = any (same id) ids || touches ids scope

abbrev pub outdated : List Text → Text → Reservation → Option Reservation
outdated ids id r = if not r.dispatched && touches ids r.scope then none else some r

-- A scope holds each credential once, as it is a Go map.
unfoldable pub set_pacing_cycle : Gate → Scope → Time → Gate
set_pacing_cycle g scope now =
    let changed = changed_ids g.cycles scope in
    recompute_next
      (record g {
        cycles = update_cycles g.cycles scope;
        last_by_auth = delete_all changed g.last_by_auth;
        reservations = revise (outdated changed) g.reservations;
        current_scope = scope;
      })
      now

abbrev pub is_set : Scope → Bool
is_set [] = false
is_set (e ∷ scope) = true

abbrev pub in_scope : Scope → Text → Text → Reservation → Option Reservation
in_scope scope request id r =
    if not r.dispatched && (same id request || (is_set scope && same_scope r.scope scope))
    then none
    else some r

unfoldable pub clear_pacing_scope : Gate → Scope → Text → Time → Gate
clear_pacing_scope g scope request now =
    recompute_next (record g { reservations = revise (in_scope scope request) g.reservations }) now
