-- ===== src/Recovery/Lifecycle.antt =====
-- recovery_guard.go: how a request's end, a new 429, an operator and a reload change the guard,
-- and the methods that only read it.
use cpa_codex_quota_schedule.Common.{
  ◌+◌, Bool, true, false, not, ◌&&◌, ◌||◌, [], ◌∷◌, Option, none, some, ◌==◌, if◌then◌else◌, Text,
  is_empty, same, trim_space, lookup, insert, delete, revise, Time, Duration, before, after, later,
}
use cpa_codex_quota_schedule.Recovery.Retry.{recovery_retry_delay}
use cpa_codex_quota_schedule.Recovery.Guard.{
  RecoveryEntry, RecoveryGuard, empty_entry, next_generation, reservation_lease,
}

-- The entries that finishExcept passes over.
unfoldable pub is_kept : Text → Text → Bool → Text → RecoveryEntry → Bool
is_kept request except preserve id e =
    not (same e.owner request)
    || same id except
    || (same e.owner_auth_id except && not (is_empty except))
    || (preserve && e.dispatched)

abbrev pub freed : RecoveryEntry → RecoveryEntry
freed e = record e { owner = []; owner_auth_id = []; reserved_at = 0; dispatched = false }

unfoldable pub failed : Time → Duration → Duration → RecoveryEntry → RecoveryEntry
failed now base max e = record e {
  failures = e.failures + 1;
  retry_at = later e.retry_at (now + recovery_retry_delay (e.failures + 1) base max);
  ready = false;
}

-- The body of the loop: none deletes the entry.
unfoldable pub finish_entry :
    Text
    → Text
    → Bool
    → Bool
    → Time
    → Duration
    → Duration
    → Text
    → RecoveryEntry
    → Option RecoveryEntry
finish_entry request except success preserve now base max id e =
    if is_kept request except preserve id e
    then some e
    else (if success && e.dispatched && e.owner_generation == e.generation
        then none
        else some (freed (if e.dispatched then failed now base max e else e)))

unfoldable pub any_entry : (Text → RecoveryEntry → Bool) → RecoveryGuard → Bool
any_entry p [] = false
any_entry p ((id, e) ∷ g) = p id e || any_entry p g

unfoldable pub finish_except :
    RecoveryGuard → Text → Text → Bool → Bool → Time → Duration → Duration → RecoveryGuard × Bool
finish_except g request except success preserve now base max =
    if is_empty request then (g, false) else (
      revise (finish_entry request except success preserve now base max) g,
      any_entry (λ id e. not (is_kept request except preserve id e)) g,
    )

unfoldable pub finish :
    RecoveryGuard → Text → Bool → Time → Duration → Duration → RecoveryGuard × Bool
finish g request success now base max = finish_except g request [] success false now base max

unfoldable pub finish_other :
    RecoveryGuard → Text → Text → Time → Duration → Duration → RecoveryGuard
finish_other g request selected now base max =
    (finish_except g request selected false false now base max).0

-- The new evidence of a 429: a generation further, no longer ready.
unfoldable pub required : Time → Time → RecoveryEntry → RecoveryEntry
required now retry e = record e {
  generation = next_generation e.generation;
  observed_at = now;
  ready = false;
  retry_at = later e.retry_at retry;
}

abbrev pub entry_or_new : Text → Option RecoveryEntry → RecoveryEntry
entry_or_new index none = record empty_entry { auth_index = index }
entry_or_new index (some e) = e

unfoldable pub require : RecoveryGuard → Text → Text → Time → Time → RecoveryGuard
require g id_raw index_raw now retry =
    let id = trim_space id_raw in
    let index = trim_space index_raw in
    if is_empty id || is_empty index
    then g
    else insert id (required now retry (entry_or_new index (lookup id g))) g

unfoldable pub clear : RecoveryGuard → Text → RecoveryGuard
clear g id = delete (trim_space id) g

unfoldable pub clear_all : RecoveryGuard → RecoveryGuard
clear_all g = []

unfoldable pub has_any : RecoveryGuard → Bool
has_any [] = false
has_any (e ∷ g) = true

abbrev pub is_some : Option RecoveryEntry → Bool
is_some none = false
is_some (some e) = true

unfoldable pub has_auth : RecoveryGuard → Text → Bool
has_auth g id = is_some (lookup (trim_space id) g)

abbrev pub binding_is : Text → Option RecoveryEntry → Bool
binding_is index none = false
binding_is index (some e) = not (is_empty index) && same e.auth_index (trim_space index)

unfoldable pub knows_credential : RecoveryGuard → Text → Text → Bool
knows_credential g id index = binding_is index (lookup (trim_space id) g)

unfoldable pub blocks : Text → Text → Time → RecoveryEntry → Bool
blocks index request now e =
    if is_empty index || not (same e.auth_index (trim_space index))
    then false
    else (if not e.ready || before now e.retry_at
        then true
        else not (is_empty e.owner)
          && not (same e.owner request)
          && (e.dispatched || before now (e.reserved_at + reservation_lease)))

unfoldable pub blocked_for_pick : RecoveryGuard → Text → Text → Text → Time → Bool
blocked_for_pick g id index request now = elim (lookup (trim_space id) g) [
  | none ↦ false
  | some e ↦ blocks index request now e
]

-- The map that snapshot returns is read-only data here, so a copy is the map.
unfoldable pub snapshot : RecoveryGuard → RecoveryGuard
snapshot g = g

abbrev pub admits : RecoveryEntry → Option RecoveryEntry → Bool
admits incoming none = true
admits incoming (some e) = not e.dispatched && after incoming.observed_at e.observed_at

unfoldable pub restore_entry : RecoveryGuard → Text → RecoveryEntry → RecoveryGuard
restore_entry g id incoming =
    if is_empty id || is_empty incoming.auth_index
    then g
    else (if admits incoming (lookup id g)
        then insert id (record incoming { ready = false }) g
        else g)

unfoldable pub restore : RecoveryGuard → RecoveryGuard → RecoveryGuard
restore g [] = g
restore g ((id, incoming) ∷ saved) = restore (restore_entry g id incoming) saved
