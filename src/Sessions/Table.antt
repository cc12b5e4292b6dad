-- ===== src/Sessions/Table.antt =====
-- balanced_session.go: the bindings of conversations to credentials. A key is the hash of a
-- conversation, which the caller computes. The sticky time is the configured number of seconds; the
-- pending requests of an account come from the balancer.
use cpa_codex_quota_schedule.Common.{
  ℕ, ◌+◌, ◌-◌, ◌*◌, ◌%◌, ◌^◌, Bool, true, false, not, ◌&&◌, ◌||◌, List, [], ◌∷◌, Option, none, some,
  ltb, leb, ◌==◌, if◌then◌else◌, Text, is_empty, same, Dict, lookup, insert, delete, revise, Time,
  Duration, is_zero, before, after, second, minute, hour, length, any, all,
}
use cpa_codex_quota_schedule.Concurrency.Ledger.{Gate}
use cpa_codex_quota_schedule.Concurrency.Queue.{has_active_session}

pub record Binding : Type 0 where
  pub auth_id : Text
  pub auth_index : Text
  pub last_used_at : Time

-- What the validity of a binding reads of a balancedPending.
pub record Pending : Type 0 where
  pub session : Text
  pub at : Time

-- What the table reads of the rest of the runtime.
pub record Host : Type 0 where
  pub sticky_seconds : ℕ
  pub gate : Gate
  pub pending : Dict (List Pending)

pub record Table : Type 0 where
  pub sessions : Dict Binding
  pub pruned_at : Time
  pub switches : ℕ  -- uint64
  pub clock : Time

abbrev pub session_limit : ℕ
session_limit = 8192

abbrev pub pending_ttl : Duration
pending_ttl = 2 * hour

abbrev pub pending_of : Option (List Pending) → List Pending
pending_of none = []
pending_of (some ps) = ps

unfoldable pub is_pending : Host → Text → Text → Time → Bool
is_pending h key auth_id now =
    any (λ p. same p.session key && ltb (now - p.at) pending_ttl)
      (pending_of (lookup auth_id h.pending))

abbrev pub sticky_time : Host → Duration
sticky_time h = h.sticky_seconds * second

unfoldable pub session_valid : Host → Text → Binding → Time → Bool
session_valid h key b now =
    not (
      h.sticky_seconds == 0
      || is_empty b.auth_id
      || is_zero b.last_used_at
      || before now b.last_used_at)
    && (leb (now - b.last_used_at) (sticky_time h)
        || has_active_session h.gate key b.auth_id
        || is_pending h key b.auth_id now)

abbrev pub if_valid : Host → Text → Time → Option Binding → Option Binding
if_valid h key now none = none
if_valid h key now (some b) =
    if not (is_empty key) && session_valid h key b now then some b else none

-- The binding of a conversation, none if there is no valid one.
unfoldable pub session : Table → Host → Text → Time → Option Binding
session t h key now = if_valid h key now (lookup key t.sessions)

abbrev pub valid_only : Host → Time → Text → Binding → Option Binding
valid_only h now key b = if session_valid h key b now then some b else none

unfoldable pub prune_sessions : Table → Host → Time → Table
prune_sessions t h now =
    if h.sticky_seconds == 0
    then record t { sessions = [] }
    else (if ltb (now - t.pruned_at) minute && ltb (length t.sessions) session_limit
        then t
        else record t { sessions = revise (valid_only h now) t.sessions; pruned_at = now })

-- The key that was used the longest ago and when, from the given ones on; an empty key is none.
unfoldable pub oldest_of : Dict Binding → Text → Time → Text × Time
oldest_of [] key oldest = (key, oldest)
oldest_of ((k, b) ∷ m) key oldest =
    let is_older = is_empty key || before b.last_used_at oldest in
    oldest_of m (if is_older then k else key) (if is_older then b.last_used_at else oldest)

-- A table of the given size makes room for a key that it does not hold.
unfoldable pub make_room : ℕ → Dict Binding → Text → Time → Dict Binding
make_room size m key now = elim (lookup key m) [
  | some b ↦ m
  | none ↦ if leb size (length m) then delete (oldest_of m [] now).0 m else m
]

abbrev pub still_valid : Host → Text → Time → Option Binding → Bool
still_valid h key now none = false
still_valid h key now (some b) = session_valid h key b now

abbrev pub differs : Option Binding → Text → Text → Bool
differs none auth_id index = true
differs (some b) auth_id index = not (same b.auth_id auth_id) || not (same b.auth_index index)

abbrev pub moves : Option Binding → Text → Bool
moves none auth_id = false
moves (some b) auth_id = not (same b.auth_id auth_id)

-- Returns whether the binding has changed.
unfoldable pub bind_session : Table → Host → Text → Text → Text → Time → Table × Bool
bind_session t h key auth_id index now =
    let previous = lookup key t.sessions in
    let is_valid = still_valid h key now previous in
    (
      record t {
        sessions =
            insert key (record { auth_id = auth_id; auth_index = index; last_used_at = now })
              (make_room session_limit t.sessions key now);
        switches =
            if is_valid && moves previous auth_id then (t.switches + 1) % 2 ^ 64 else t.switches;
      },
      not is_valid || differs previous auth_id index,
    )

-- A conversation that is kept by a running request alone is saved with a fresh lease.
abbrev pub saved_binding : Host → Time → Text → Binding → Option Binding
saved_binding h now key b =
    if session_valid h key b now
    then some
        (if ltb (sticky_time h) (now - b.last_used_at) then record b { last_used_at = now } else b)
    else none

unfoldable pub take_saved : Host → Time → ℕ → Dict Binding → Dict Binding
take_saved h now count [] = []
take_saved h now count ((k, b) ∷ m) =
    let skipped = take_saved h now count m in
    let rest = take_saved h now (count + 1) m in
    if leb session_limit count
    then []
    else elim (saved_binding h now k b) [ none ↦ skipped | some c ↦ (k, c) ∷ rest ]

unfoldable pub snapshot_sessions : Table → Host → Time → Dict Binding
snapshot_sessions t h now = take_saved h now 0 t.sessions

abbrev pub is_hex : ℕ → Bool
is_hex c = (leb 48 c && leb c 57) || (leb 65 c && leb c 70) || (leb 97 c && leb c 102)

-- The hexadecimal digits of 16 bytes.
unfoldable pub is_hash : Text → Bool
is_hash key = length key == 32 && all is_hex key

unfoldable pub restore_binding : Dict Binding → Text → Binding → Dict Binding
restore_binding m key b = elim (lookup key m) [
  | some previous ↦ if after b.last_used_at previous.last_used_at then insert key b m else m
  | none ↦ if leb session_limit (length m) then m else insert key b m
]

unfoldable pub restore_bindings : Host → Time → Dict Binding → Dict Binding → Dict Binding
restore_bindings h now [] m = m
restore_bindings h now ((k, b) ∷ saved) m = restore_bindings h now saved (
    if is_hash k && not (is_empty b.auth_id) && session_valid h k b now
    then restore_binding m k b
    else m)

unfoldable pub restore_sessions : Table → Host → Dict Binding → Time → Table
restore_sessions t h saved now =
    if h.sticky_seconds == 0
    then record t { sessions = [] }
    else record t { sessions = restore_bindings h now saved t.sessions }

-- The clock does not go back, whatever order the callers come in.
unfoldable pub balanced_time : Table → Time → Table × Time
balanced_time t now = if before now t.clock then (t, t.clock) else (record t { clock = now }, now)

-- The completion of a request renews the binding of its conversation, in concurrencyComplete.
unfoldable pub renew_session : Table → Text → Text → Time → Table
renew_session t key auth_id now =
    let (u, later) = balanced_time t now in
    elim (lookup key u.sessions) [
      | none ↦ u
      | some b ↦
          if same b.auth_id auth_id
          then record u { sessions = insert key (record b { last_used_at = later }) u.sessions }
          else u
    ]
