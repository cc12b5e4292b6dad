-- ===== src/Concurrency/Slot.antt =====
-- concurrency.go, the first part of a pass of concurrencyAfter: is the request one of Codex, and does
-- it hold a slot of the credential that CPA has chosen?
use cpa_codex_quota_schedule.Common.{
  ℕ, ◌+◌, Bool, true, false, not, ◌&&◌, ◌||◌, [], ◌∷◌, Option, none, some, if◌then◌else◌, Text,
  text, is_empty, same, trim_space, lookup, insert, Time, Duration, is_zero, before,
}
use cpa_codex_quota_schedule.Quota.{QuotaSnapshot}
use cpa_codex_quota_schedule.Recovery.Lifecycle.{knows_credential}
use cpa_codex_quota_schedule.Ban.Store.{lookup_ban}
use cpa_codex_quota_schedule.Runtime.Identity.{
  Inventory, lookup_quota, quota_index, text_of, concurrency_aliases,
}
use cpa_codex_quota_schedule.Concurrency.Ledger.{Request, Gate}
use cpa_codex_quota_schedule.Concurrency.Queue.{key_of, blocked, start_wait, reject}
use cpa_codex_quota_schedule.Concurrency.Rejected.{System}

-- What a pass reads of the configuration and of the runtime.
pub record Settings : Type 0 where
  pub enabled : Bool
  pub concurrency_enabled : Bool
  pub limit : ℕ
  pub mode : Text
  pub half_open_retry : Duration
  pub max_ban : Duration
  pub probe_timeout : Duration
  pub detached : Bool
  pub inventory : Inventory

-- The request as CPA passes it. The strings are trimmed by the host but for the id of the credential.
pub record Selected : Type 0 where
  pub request_id : Text
  pub to_codex : Bool
  pub auth_id : Text
  pub auth_index : Text

pub data Outcome : Type 0 where
  ignored passed waits : Outcome
  terminated : Text → Outcome

abbrev pub is_some {ℓ} : {A : Type ℓ} → Option A → Bool
is_some none = false
is_some (some x) = true

-- The index of the credential, from its quota if the request does not name it.
unfoldable pub index_of : Settings → Selected → Text
index_of c q =
    if is_empty q.auth_index && not (is_empty q.auth_id)
    then quota_index (lookup_quota c.inventory q.auth_id [])
    else q.auth_index

abbrev pub binds_codex : Inventory → Text → Text → Option QuotaSnapshot → Bool
binds_codex inv id index none = false
binds_codex inv id index (some s) =
    same s.auth_id id
    && not (is_empty s.auth_index)
    && (is_empty index || same index s.auth_index)
    && same (text_of (lookup s.auth_index inv.identities)) id

-- Is the credential one of Codex?
unfoldable pub is_codex : Settings → System → Selected → Text → Bool
is_codex c s q index =
    q.to_codex
    || binds_codex c.inventory q.auth_id index (lookup_quota c.inventory q.auth_id index)
    || knows_credential s.guard q.auth_id index
    || (not (is_empty q.auth_id) && is_some (lookup_ban s.bans q.auth_id))

abbrev pub busy : Text
busy = text "account_concurrency_busy"

abbrev pub unavailable : Text
unavailable = text "account_concurrency_unavailable"

abbrev pub recovery_wait : Text
recovery_wait = text "quota_recovery_wait"

-- Rewrites the request that the ledger holds under the id, if there is one.
unfoldable pub change_request : Gate → Text → (Request → Request) → Gate
change_request g id f = elim (lookup id g.requests) [
  | none ↦ g
  | some r ↦ record g { requests = insert id (f r) g.requests }
]

abbrev pub without_slot : Request → Request
without_slot r = record r { key = []; auth_id = [] }

-- Another provider serves the request.
unfoldable pub leave_codex : Gate → Text → Gate
leave_codex g id = elim (lookup id g.requests) [
  | none ↦ g
  | some r ↦ if is_empty r.key then g else record g {
    requests = insert id (record (without_slot r) { dispatched = false }) g.requests;
  }
]

unfoldable pub reject_request : Gate → Settings → Text → Text → Time → Gate
reject_request g c id code now = elim (lookup id g.requests) [
  | none ↦ reject g none code c.mode c.limit now
  | some r ↦ reject g (some id) code c.mode c.limit now
]

unfoldable pub wait_for :
    Gate → Settings → Selected → Text → Time → Bool → Time → Gate × Outcome × Bool
wait_for g c q key deadline is_waiting now =
    let dated =
      change_request g q.request_id
        (λ r. if is_zero r.queue_deadline then record r { queue_deadline = deadline } else r) in
    let counted = record dated {
      waiting = if is_waiting then dated.waiting else dated.waiting + 1;
    } in
    let queued =
      start_wait counted q.request_id ((key, true) ∷ []) q.auth_id (text "native_credential") now in
    if not (before now deadline)
    then (reject_request queued c q.request_id busy now, terminated busy, true)
    else (queued, waits, true)

-- Is the request on a key?
abbrev pub has_key : Option Request → Bool
has_key none = false
has_key (some r) = not (is_empty r.key)

-- The slot of a request that CPA has routed without the scheduler.
unfoldable pub take_slot :
    Gate → Settings → Selected → Text → Time → Bool → Time → Gate × Outcome × Bool
take_slot g c q key deadline is_waiting now =
    let loose = change_request g q.request_id (λ r. if same r.key key then r else without_slot r) in
    if c.enabled
      && c.concurrency_enabled
      && not (has_key (lookup q.request_id loose.requests))
      && blocked loose key (some q.request_id) c.limit now
    then wait_for loose c q key deadline is_waiting now
    else (
      change_request loose q.request_id (λ r. record r { key = key; auth_id = q.auth_id }),
      passed,
      is_waiting,
    )

abbrev pub is_native : Text → Request → Bool
is_native auth_id r = r.native_selection || is_empty r.key

unfoldable pub native_slot : Gate → Settings → Selected → Time → Bool → Time → Gate × Outcome × Bool
native_slot g c q deadline is_waiting now = elim (lookup q.request_id g.requests) [
  | none ↦ (g, passed, is_waiting)
  | some r ↦
      if not (is_empty q.auth_id) && is_native q.auth_id r
      then (let native =
            change_request g q.request_id (λ x. record x { native_selection = true }) in
          let (keyed, key) =
            key_of native (concurrency_aliases c.inventory q.auth_id (trim_space q.auth_index)) in
          take_slot keyed c q key deadline is_waiting now)
      else (g, passed, is_waiting)
]

abbrev pub is_on : Text → Option Request → Bool
is_on key none = false
is_on key (some r) = same r.key key

-- Without a slot of the credential the request does not go out.
unfoldable pub check_slot : Gate → Settings → Selected → Time → Gate × Outcome
check_slot g c q now =
    let (keyed, key) =
      key_of g (concurrency_aliases c.inventory q.auth_id (trim_space q.auth_index)) in
    if not (c.enabled && c.concurrency_enabled)
    then (g, passed)
    else (if is_empty q.request_id || not (has_key (lookup q.request_id g.requests))
        then (reject_request g c q.request_id unavailable now, terminated unavailable)
        else (if is_empty q.auth_id
            then (g, passed)
            else (if is_on key (lookup q.request_id keyed.requests) then (keyed, passed) else (
              reject_request keyed c q.request_id unavailable now,
              terminated unavailable,
            ))))
