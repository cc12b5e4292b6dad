-- ===== src/Concurrency/After.antt =====
-- concurrency.go: concurrencyAfter, the admission of a request once CPA has chosen its credential. One
-- pass of its loop is a step, which ends the callback or leaves the request waiting for the next
-- pass; the callers' locks make a pass one step. An auth index of a request is the one that the
-- caller found in the metadata or in an earlier pass.
use cpa_codex_quota_schedule.Common.{
  Bool, true, false, not, ◌&&◌, ◌||◌, [], Option, none, some, ltb, ◌==◌, if◌then◌else◌, Text,
  is_empty, same, lookup, Time, is_zero, before,
}
use cpa_codex_quota_schedule.Recovery.Guard.{reserve, dispatched}
use cpa_codex_quota_schedule.Recovery.Lifecycle.{finish_other, has_any, has_auth}
use cpa_codex_quota_schedule.Ban.Store.{lookup_ban, count, try_start_probe_owned}
use cpa_codex_quota_schedule.Ban.Completion.{complete_owned_probe_except, mark_probe_dispatched}
use cpa_codex_quota_schedule.Concurrency.Ledger.{Request, Gate, register}
use cpa_codex_quota_schedule.Concurrency.Queue.{end_wait, any_request}
use cpa_codex_quota_schedule.Concurrency.Rejected.{System}
use cpa_codex_quota_schedule.Concurrency.Slot.{
  Settings, Selected, Outcome, is_some, index_of, is_codex, busy, recovery_wait, change_request,
  leave_codex, reject_request, native_slot, check_slot, ignored, passed, waits, terminated,
}

abbrev pub warms_up : Text → Request → Bool
warms_up auth_id r = r.warmup && same r.auth_id auth_id

-- The quarantine lets the request in, as a probe if the credential is quarantined; the guard is told
-- that it goes out.
unfoldable pub enter_quarantine :
    System → Settings → Selected → Bool → Bool → Time → System × Outcome
enter_quarantine s c q is_guarded is_tracked now =
    if is_some (lookup_ban s.bans q.auth_id) && (not is_tracked || is_empty q.request_id)
    then (s, terminated recovery_wait)
    else (let (bans, is_allowed, has_started) =
          try_start_probe_owned s.bans q.auth_id q.request_id now c.probe_timeout in
        let t = record s { bans = bans } in
        let (guard, is_sent) = dispatched s.guard q.auth_id q.request_id in
        if not is_allowed
        then (t, terminated recovery_wait)
        else (if not is_guarded
            then (record t { bans = mark_probe_dispatched bans q.auth_id q.request_id }, passed)
            else (if not is_sent then (record t { guard = guard }, terminated recovery_wait) else (
              record t { guard = guard; bans = mark_probe_dispatched bans q.auth_id q.request_id },
              passed,
            ))))

-- The safety of the quota: the guard and the quarantine of the chosen credential.
unfoldable pub check_quota : System → Settings → Selected → Text → Time → System × Outcome
check_quota s c q index now =
    if not c.enabled
    then (s, passed)
    else (if is_empty q.auth_id
        then (if has_any s.guard || ltb 0 (count s.bans)
            then (s, terminated recovery_wait)
            else (s, passed))
        else (if has_auth s.guard q.auth_id
              && any_request (λ id r. warms_up q.auth_id r) s.gate.requests
            then (s, terminated recovery_wait)
            else (let others =
                  finish_other s.guard q.request_id q.auth_id now c.half_open_retry c.max_ban in
                let bans =
                  (complete_owned_probe_except s.bans q.request_id q.auth_id false false now
                    c.half_open_retry c.max_ban).0 in
                let (guard, is_allowed, is_guarded) =
                  reserve others q.auth_id index q.request_id now in
                let is_tracked = is_some (lookup q.request_id s.gate.requests) in
                let t = record s { guard = guard; bans = bans } in
                if not is_allowed || (is_guarded && not is_tracked)
                then (t, terminated recovery_wait)
                else enter_quarantine t c q is_guarded is_tracked now)))

-- The request goes out.
unfoldable pub send : System → Selected → Text → System
send s q index = record s {
  gate =
      change_request s.gate q.request_id (λ r. record r { auth_index = index; dispatched = true });
}

abbrev pub admitted : System × Outcome → Selected → Text → Bool → System × Outcome × Bool
admitted (s, passed) q index is_waiting = (send s q index, passed, is_waiting)
admitted (s, ignored) q index is_waiting = (s, ignored, is_waiting)
admitted (s, waits) q index is_waiting = (s, waits, is_waiting)
admitted (s, terminated code) q index is_waiting = (s, terminated code, is_waiting)

abbrev pub checked :
    System → Settings → Selected → Text → Bool → Time → Gate × Outcome → System × Outcome × Bool
checked s c q index is_waiting now (g, passed) =
    admitted (check_quota (record s { gate = g }) c q index now) q index is_waiting
checked s c q index is_waiting now (g, ignored) = (record s { gate = g }, ignored, is_waiting)
checked s c q index is_waiting now (g, waits) = (record s { gate = g }, waits, is_waiting)
checked s c q index is_waiting now (g, terminated code) =
    (record s { gate = g }, terminated code, is_waiting)

abbrev pub routed :
    System → Settings → Selected → Text → Time → Gate × Outcome × Bool → System × Outcome × Bool
routed s c q index now (g, passed, is_waiting) =
    checked s c q index is_waiting now (check_slot g c q now)
routed s c q index now (g, ignored, is_waiting) = (record s { gate = g }, ignored, is_waiting)
routed s c q index now (g, waits, is_waiting) = (record s { gate = g }, waits, is_waiting)
routed s c q index now (g, terminated code, is_waiting) =
    (record s { gate = g }, terminated code, is_waiting)

abbrev pub rejection_at : Option Request → Text
rejection_at none = []
rejection_at (some r) = r.rejection

abbrev pub is_late : Option Request → Time → Time → Bool
is_late none deadline now = false
is_late (some r) deadline now = not (r.queue_sequence == 0) && not (before now deadline)

abbrev pub deadline_of : Option Request → Time → Time
deadline_of none deadline = deadline
deadline_of (some r) deadline = if is_zero r.queue_deadline then deadline else r.queue_deadline

-- A request of Codex that the ledger may hold.
unfoldable pub admit_codex :
    System → Settings → Selected → Text → Time → Bool → Time → System × Outcome × Bool
admit_codex s c q index start is_waiting now =
    let r = lookup q.request_id s.gate.requests in
    let deadline = deadline_of r start in
    if not (is_empty (rejection_at r))
    then (s, terminated (rejection_at r), is_waiting)
    else (if c.enabled && c.concurrency_enabled && is_late r deadline now
        then (
          record s { gate = reject_request s.gate c q.request_id busy now },
          terminated busy,
          is_waiting,
        )
        else routed s c q index now (native_slot s.gate c q deadline is_waiting now))

-- The first pass registers a request whose registration another instance has made.
unfoldable pub register_once : Gate → Selected → Bool → Option Text → Time → Gate
register_once g q is_first token now =
    if is_first && not (is_empty q.auth_id) && not (is_some (lookup q.request_id g.requests))
    then (register g q.request_id token now).0
    else g

-- One pass; the Boolean says whether the request counts as waiting. `start` is the deadline from the
-- callback's start.
unfoldable pub pass :
    System → Settings → Selected → Bool → Option Text → Time → Bool → Time → System × Outcome × Bool
pass s c q is_first token start is_waiting now =
    let index = index_of c q in
    if c.detached
    then (s, ignored, is_waiting)
    else (if not (is_codex c s q index)
        then (record s { gate = leave_codex s.gate q.request_id }, passed, is_waiting)
        else admit_codex (record s { gate = register_once s.gate q is_first token now }) c q index
            start is_waiting now)

-- What the callback leaves behind: unless it waits on, a request no longer counts as waiting.
abbrev pub settle : System × Outcome × Bool → Text → System
settle (s, waits, is_waiting) id = s
settle (s, ignored, is_waiting) id =
    if is_waiting then record s { gate = end_wait s.gate id } else s
settle (s, passed, is_waiting) id = if is_waiting then record s { gate = end_wait s.gate id } else s
settle (s, terminated code, is_waiting) id =
    if is_waiting then record s { gate = end_wait s.gate id } else s
