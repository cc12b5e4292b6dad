-- ===== src/Concurrency/Queue.antt =====
-- concurrency.go: the slots of a credential, the admission test, and the queue of waiting requests.
-- A request is known by the id under which the ledger holds it; `none` stands for a nil request.
use cpa_codex_quota_schedule.Common.{
  ℕ, ◌+◌, ◌-◌, ◌%◌, ◌^◌, Bool, true, false, not, ◌&&◌, ◌||◌, List, [], ◌∷◌, ◌++◌, Option, none,
  some, ltb, leb, ◌==◌, if◌then◌else◌, Text, text, is_empty, same, Dict, lookup, insert, delete,
  revise, Time, is_zero, before, length, drop, any,
}
use cpa_codex_quota_schedule.Concurrency.Ledger.{
  Marks, has_mark, Request, new_request, Rejection, Gate,
}

-- a < b on texts.
unfoldable pub text_before : Text → Text → Bool
text_before [] [] = false
text_before [] (d ∷ u) = true
text_before (c ∷ t) [] = false
text_before (c ∷ t) (d ∷ u) = ltb c d || (c == d && text_before t u)

abbrev pub value : Option Text → Text
value none = []
value (some t) = t

abbrev pub lesser_key : Text → Text → Text
lesser_key existing key =
    if not (is_empty existing) && (is_empty key || text_before existing key) then existing else key

-- The least key that an alias has, from the given one on.
unfoldable pub least_key : Dict Text → Text → List Text → Text
least_key m key [] = key
least_key m key (a ∷ more) = least_key m (lesser_key (value (lookup a m)) key) more

abbrev pub first_of : List Text → Text
first_of [] = []
first_of (a ∷ more) = a

unfoldable pub credential_key : Dict Text → List Text → Text
credential_key m aliases =
    let key = least_key m [] aliases in if is_empty key then first_of aliases else key

-- The other keys of the aliases, which the key replaces.
unfoldable pub old_keys : Dict Text → Text → List Text → List Text
old_keys m key [] = []
old_keys m key (a ∷ more) =
    let existing = value (lookup a m) in
    let rest = old_keys m key more in
    if not (is_empty existing) && not (same existing key) then existing ∷ rest else rest

abbrev pub is_old : List Text → Text → Bool
is_old old k = any (same k) old

unfoldable pub merge_marks : List Text → Text → Marks → Marks
merge_marks [] key m = m
merge_marks (o ∷ old) key m =
    merge_marks old key (if has_mark o m then insert key true (delete o m) else m)

unfoldable pub merge_request : List Text → Text → Request → Request
merge_request old key r = record r {
  wait_keys = merge_marks old key r.wait_keys;
  key = if is_old old r.key then key else r.key;
}

unfoldable pub set_aliases : Dict Text → Text → List Text → Dict Text
set_aliases m key [] = m
set_aliases m key (a ∷ more) = set_aliases (insert a key m) key more

-- Returns the key of the credential; further aliases of one credential are merged.
unfoldable pub key_of : Gate → List Text → Gate × Text
key_of g aliases =
    let key = credential_key g.aliases aliases in
    let old = old_keys g.aliases key aliases in
    if is_empty key then (g, []) else (
      record g {
        aliases =
            set_aliases (revise (λ a k. some (if is_old old k then key else k)) g.aliases) key
              aliases;
        requests = revise (λ id r. some (merge_request old key r)) g.requests;
      },
      key,
    )

abbrev pub holds : Text → Request → Bool
holds key r = same r.key key

-- The running requests that pass the test.
unfoldable pub count_if : (Request → Bool) → Dict Request → ℕ
count_if p [] = 0
count_if p ((id, r) ∷ rs) = let rest = count_if p rs in if p r then rest + 1 else rest

-- The running requests on a key, and those of them that warm up.
unfoldable pub count_active : Gate → Text → ℕ × ℕ
count_active g key =
    if is_empty key
    then (0, 0)
    else (count_if (holds key) g.requests, count_if (λ r. holds key r && r.warmup) g.requests)

abbrev pub goes_after : Option Request → Request → Bool
goes_after none older = true
goes_after (some r) older = r.queue_sequence == 0 || ltb older.queue_sequence r.queue_sequence

-- Does this waiting request go before the one with the id?
unfoldable pub waits_before : Text → Time → Option Text → Option Request → Text → Request → Bool
waits_before key now me r id older =
    not (same_id me id)
    && not (older.queue_sequence == 0)
    && has_mark key older.wait_keys
    && is_empty older.rejection
    && not (not (is_zero older.queue_deadline) && not (before now older.queue_deadline))
    && goes_after r older
  where
    same_id : Option Text → Text → Bool
    same_id none id = false
    same_id (some i) id = same i id

abbrev pub any_request : (Text → Request → Bool) → Dict Request → Bool
any_request p [] = false
any_request p ((id, r) ∷ rs) = p id r || any_request p rs

abbrev pub request_at : Option Text → Dict Request → Option Request
request_at none rs = none
request_at (some id) rs = lookup id rs

-- Is the key full, or does an older request wait for it?
unfoldable pub blocked : Gate → Text → Option Text → ℕ → Time → Bool
blocked g key me limit now =
    leb limit (count_active g key).0
    || any_request (waits_before key now me (request_at me g.requests)) g.requests

-- Assigns the key to a request that has been let in.
unfoldable pub admit : Gate → Text → Text → Text → Text → Gate
admit g id key auth_id session = elim (lookup id g.requests) [
  | none ↦ g
  | some r ↦ record g {
    requests =
        insert id (record r { key = key; auth_id = auth_id; session_key = session }) g.requests;
  }
]

unfoldable pub start_wait : Gate → Text → Marks → Text → Text → Time → Gate
start_wait g id keys auth_id reason now = elim (lookup id g.requests) [
  | none ↦ g
  | some r ↦
      let next = (g.sequence + 1) % 2 ^ 64 in
      let is_new = r.queue_sequence == 0 in
      record g {
        requests =
            insert id
              (record r {
                queue_sequence = if is_new then next else r.queue_sequence;
                queue_started_at =
                    if is_new && is_zero r.queue_started_at then now else r.queue_started_at;
                wait_keys = keys;
                wait_auth_id = auth_id;
                wait_reason = reason;
              })
              g.requests;
        sequence = if is_new then next else g.sequence;
        waits = if is_new then (g.waits + 1) % 2 ^ 64 else g.waits;
      }
]

-- Each call ends a wait that was counted, so the count does not pass below zero.
unfoldable pub end_wait : Gate → Text → Gate
end_wait g id =
    let left = record g { waiting = g.waiting - 1 } in
    elim (lookup id g.requests) [
      | none ↦ left
      | some r ↦ if r.queue_sequence == 0 then left else record left {
        requests = insert id (record r { queue_sequence = 0; wait_keys = [] }) g.requests;
      }
    ]

abbrev pub or_else : Text → Text → Text
or_else t u = if is_empty t then u else t

-- The running requests on the one key of the set.
abbrev pub active_on : Gate → Marks → ℕ
active_on g [] = 0
active_on g ((k, b) ∷ []) = (count_active g k).0
active_on g (x ∷ y ∷ m) = 0

unfoldable pub rejection_of : Gate → Option Request → Text → Text → ℕ → Time → Rejection
rejection_of g none code mode limit now = record {
  at = now;
  code = code;
  reason = text "lifecycle_unavailable";
  auth_id = [];
  mode = mode;
  active = 0;
  limit = limit;
  waited = 0;
}
rejection_of g (some r) code mode limit now = record {
  at = now;
  code = code;
  reason = or_else r.wait_reason (text "lifecycle_unavailable");
  auth_id = or_else r.wait_auth_id r.auth_id;
  mode = mode;
  active = active_on g r.wait_keys;
  limit = limit;
  waited = if is_zero r.queue_started_at then 0 else now - r.queue_started_at;
}

abbrev pub is_rejected : Option Request → Bool
is_rejected none = false
is_rejected (some r) = not (is_empty r.rejection)

abbrev pub mark_rejected : Dict Request → Option Text → Option Request → Text → Dict Request
mark_rejected rs (some id) (some r) code = insert id (record r { rejection = code }) rs
mark_rejected rs none r code = rs
mark_rejected rs (some id) none code = rs

-- The last twenty rejections are kept.
unfoldable pub reject : Gate → Option Text → Text → Text → ℕ → Time → Gate
reject g me code mode limit now =
    let r = request_at me g.requests in
    if is_rejected r
    then g
    else (let all = g.rejections ++ rejection_of g r code mode limit now ∷ [] in
        record g {
          requests = mark_rejected g.requests me r code;
          rejected = (g.rejected + 1) % 2 ^ 64;
          rejections = drop (length all - 20) all;
        })

unfoldable pub has_active_session : Gate → Text → Text → Bool
has_active_session g session auth_id =
    any_request
      (λ id r. same r.session_key session && same r.auth_id auth_id && not (is_empty r.key))
      g.requests

abbrev pub warmup_request : Text → Text → Time → Request
warmup_request key auth_id now = record (new_request [] now) {
  key = key;
  auth_id = auth_id;
  warmup = true;
}

-- A warmup takes the only slot of a credential without a request or a waiter. `is_held` says that
-- the credential is quarantined or guarded; the id is none if the system has no random bytes.
unfoldable pub begin_warmup :
    Gate → List Text → Text → Bool → Option Text → Time → Gate × Option Text
begin_warmup g aliases auth_id is_held none now =
    if is_held then (g, none) else ((key_of g aliases).0, none)
begin_warmup g aliases auth_id is_held (some random) now =
    if is_held
    then (g, none)
    else (let (h, key) = key_of g aliases in
        let id = text "warmup:" ++ random in
        if blocked h key none 1 now then (h, none) else (
          record h { requests = insert id (warmup_request key auth_id now) h.requests },
          some id,
        ))

-- Frees the slot of an attempt that the upstream has refused.
unfoldable pub detach : Gate → Text → Gate
detach g id = elim (lookup id g.requests) [
  | none ↦ g
  | some r ↦
      if r.dispatched
      then record g {
        requests =
            insert id (record r { key = []; auth_id = []; auth_index = []; dispatched = false })
              g.requests;
      }
      else g
]
