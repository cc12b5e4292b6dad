-- ===== src/Concurrency/Ledger.antt =====
-- concurrency.go: the ledger of running requests, their registration and completion. The channel
-- that wakes waiting callers is left out; the random token is an argument.
use cpa_codex_quota_schedule.Common.{
  ℕ, zero, suc, ◌+◌, ◌-◌, ◌*◌, ◌%◌, Bool, true, false, not, ◌&&◌, ◌||◌, List, [], ◌∷◌, ◌++◌, Option,
  none, some, ltb, leb, if◌then◌else◌, Text, is_empty, byte_len, Dict, lookup, insert, delete,
  revise, Time, Duration, minute, length,
}

-- A Go map[string]bool.
abbrev pub Marks : Type 0
Marks = Dict Bool

abbrev pub marked : Option Bool → Bool
marked none = false
marked (some b) = b

unfoldable pub has_mark : Text → Marks → Bool
has_mark k m = marked (lookup k m)

pub record Request : Type 0 where
  pub session_key : Text
  pub token : Text
  pub key : Text
  pub auth_id : Text
  pub auth_index : Text
  pub at : Time
  pub warmup : Bool
  pub native_selection : Bool
  pub dispatched : Bool
  pub rejection : Text
  pub queue_deadline : Time
  pub queue_started_at : Time
  pub queue_sequence : ℕ  -- uint64
  pub wait_keys : Marks
  pub wait_auth_id : Text
  pub wait_reason : Text

abbrev pub new_request : Text → Time → Request
new_request token now = record {
  session_key = [];
  token = token;
  key = [];
  auth_id = [];
  auth_index = [];
  at = now;
  warmup = false;
  native_selection = false;
  dispatched = false;
  rejection = [];
  queue_deadline = 0;
  queue_started_at = 0;
  queue_sequence = 0;
  wait_keys = [];
  wait_auth_id = [];
  wait_reason = [];
}

pub record Rejection : Type 0 where
  pub at : Time
  pub code : Text
  pub reason : Text
  pub auth_id : Text
  pub mode : Text
  pub active : ℕ
  pub limit : ℕ
  pub waited : Duration

pub record Gate : Type 0 where
  pub requests : Dict Request
  pub tokens : Dict Text
  pub completed : Marks
  pub completed_ids : List Text
  pub completed_next : ℕ
  pub aliases : Dict Text
  pub supported : Bool
  pub waiting : ℕ
  pub waits : ℕ  -- uint64
  pub rejected : ℕ  -- uint64
  pub sequence : ℕ  -- uint64
  pub rejections : List Rejection

abbrev pub registration_limit : ℕ
registration_limit = 8192

abbrev pub is_id : Text → Bool
is_id id = not (is_empty id) && leb (byte_len id) 512

-- A registration that never obtained a slot expires.
unfoldable pub has_expired : Time → Request → Bool
has_expired now r = is_empty r.key && ltb (30 * minute) (now - r.at)

unfoldable pub expire_tokens : Time → Dict Request → Dict Text → Dict Text
expire_tokens now [] tokens = tokens
expire_tokens now ((k, r) ∷ rs) tokens =
    expire_tokens now rs (if has_expired now r then delete r.token tokens else tokens)

unfoldable pub expire : Gate → Time → Gate
expire g now = record g {
  requests = revise (λ k r. if has_expired now r then none else some r) g.requests;
  tokens = expire_tokens now g.requests g.tokens;
}

unfoldable pub add_request : Gate → Text → Text → Time → Gate × Text
add_request g id token now = if leb registration_limit (length g.requests) then (g, []) else (
  record g {
    requests = insert id (new_request token now) g.requests;
    tokens = insert token id g.tokens;
  },
  token,
)

-- Returns the token of the request, empty if it is not registered. `token` is none if the system
-- has no random bytes.
unfoldable pub register : Gate → Text → Option Text → Time → Gate × Text
register g id token now =
    if not (is_id id) || has_mark id g.completed
    then (g, [])
    else (let supporting = record g { supported = true } in
        elim (lookup id g.requests) [
          | some r ↦ (supporting, r.token)
          | none ↦ elim token [
            | none ↦ (expire supporting now, [])
            | some t ↦ add_request (expire supporting now) id t now
          ]
        ])

-- xs[i], and xs[i] = x.
unfoldable pub get_elem : List Text → ℕ → Option Text
get_elem [] i = none
get_elem (x ∷ xs) zero = some x
get_elem (x ∷ xs) (suc i) = get_elem xs i

unfoldable pub set_elem : List Text → ℕ → Text → List Text
set_elem [] i y = []
set_elem (x ∷ xs) zero y = y ∷ xs
set_elem (x ∷ xs) (suc i) y = x ∷ set_elem xs i y

abbrev pub unmark : Option Text → Marks → Marks
unmark none m = m
unmark (some k) m = delete k m

-- The ring of the last completed requests, of the given size. An id that it holds is not moved.
unfoldable pub remember : ℕ → Gate → Text → Gate
remember size g id =
    if not (is_id id) || has_mark id g.completed
    then g
    else (let marks = insert id true g.completed in
        if ltb (length g.completed_ids) size
        then record g { completed = marks; completed_ids = g.completed_ids ++ id ∷ [] }
        else record g {
          completed = unmark (get_elem g.completed_ids g.completed_next) marks;
          completed_ids = set_elem g.completed_ids g.completed_next id;
          completed_next = (g.completed_next + 1) % size;
        })

unfoldable pub remember_completed : Gate → Text → Gate
remember_completed g id = remember registration_limit g id

-- Returns the request that has ended, if it was registered.
unfoldable pub release : Gate → Text → Gate × Option Request
release g id =
    let h = remember_completed g id in
    elim (lookup id h.requests) [
      | none ↦ (h, none)
      | some r ↦
          (record h { requests = delete id h.requests; tokens = delete r.token h.tokens }, some r)
    ]
