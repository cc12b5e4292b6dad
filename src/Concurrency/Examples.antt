-- ===== src/Concurrency/Examples.antt =====
-- The theorems on the ledger at concrete ledgers.
use cpa_codex_quota_schedule.Concurrency.Complete.{Runtime, Completion, handle_complete}
use cpa_codex_quota_schedule.Concurrency.Released.{IsGone, handle_complete-IsGone}
use cpa_codex_quota_schedule.Common.{
  ◌+◌, ◌≤◌, true, false, [], ◌∷◌, none, some, ◌≡◌, ◌≢◌, inl, refl, arith, Text, text, text_discrete,
  ℕ_discrete, lookup, byte_len, trim_space, minute, hour,
}
use cpa_codex_quota_schedule.Concurrency.Ledger.{
  Request, new_request, Gate, has_mark, register, release, get_elem,
}
use cpa_codex_quota_schedule.Concurrency.Queue.{
  count_if, count_active, waits_before, blocked, admit, key_of,
}
use cpa_codex_quota_schedule.Concurrency.Ring.{IsRing}
use cpa_codex_quota_schedule.Concurrency.Slots.{
  admit_within_limit, release_frees, key_of_keeps_count,
}
use cpa_codex_quota_schedule.Concurrency.Waiting.{IsWaiting}
use cpa_codex_quota_schedule.Concurrency.Turns.{GoesFirst, first_unblocked}
use cpa_codex_quota_schedule.Recovery.Guard.{RecoveryEntry}
use cpa_codex_quota_schedule.Concurrency.Rejected.{
  System, release_rejected_attempt, release_rejected_isolates,
}
use cpa_codex_quota_schedule.Concurrency.Calls.{
  registers, releases, run, run-IsRing, register_after_release,
}

abbrev fresh_gate : Gate
fresh_gate = record {
  requests = [];
  tokens = [];
  completed = [];
  completed_ids = [];
  completed_next = 0;
  aliases = [];
  supported = true;
  waiting = 0;
  waits = 0;
  rejected = 0;
  sequence = 0;
  rejections = [];
}

abbrev running : Request
running = record (new_request (text "t1") 5) { key = text "auth:a"; auth_id = text "a" }

abbrev waiting : Request
waiting = record (new_request (text "t2") 6) {
  queue_sequence = 1;
  wait_keys = (text "auth:a", true) ∷ [];
}

abbrev newcomer : Request
newcomer = new_request (text "t3") 7

-- One request runs on a credential, one waits for it, and one is new.
abbrev busy : Gate
busy = record fresh_gate {
  requests = (text "r1", running) ∷ (text "r2", waiting) ∷ (text "r3", newcomer) ∷ [];
  aliases = (text "auth:a", text "auth:a") ∷ [];
  sequence = 1;
}

admit_within_limit_example :
    let h = admit busy (text "r2") (text "auth:a") (text "a") [] in
    ((count_active h (text "auth:a")).0 ≡ (count_active busy (text "auth:a")).0 + 1)
    × ((count_active h (text "auth:a")).0 ≤ 2)
    × ((count_active h (text "auth:b")).0 ≡ (count_active busy (text "auth:b")).0)
unfolding blocked waits_before count_active count_if has_mark lookup text_discrete ℕ_discrete
admit_within_limit_example =
    admit_within_limit busy (text "r2") (text "auth:a") (text "auth:b") (text "a") [] waiting 2 9
      refl refl (λ e. ground arith) (λ e. ground arith) refl

first_unblocked_example :
    (first : Text) × (f : Request) × (lookup first busy.requests ≡ some f)
    × IsWaiting (text "auth:a") 9 f
    × (f.queue_sequence ≤ 1)
    × (blocked busy (text "auth:a") (some first) 2 9 ≡ false)
    × GoesFirst busy (text "auth:a") 2 9 first f
unfolding has_mark count_active count_if lookup text_discrete ℕ_discrete
first_unblocked_example =
    first_unblocked busy (text "auth:a") (text "r2") waiting 2 9
      ((λ e. ground arith, (λ e. ground arith, tt)), ((λ e. ground arith, tt), (tt, tt)))
      (omega arith) refl
      (record { queued = λ e. ground arith; for_key = refl; unrejected = refl; in_time = inl refl })

release_frees_example :
    let h = (release busy (text "r1")).0 in
    ((count_active h (text "auth:a")).0 + 1 ≡ (count_active busy (text "auth:a")).0)
    × ((release busy (text "r1")).1 ≡ some running)
    × (lookup (text "r1") h.requests ≡ none)
    × ((count_active h (text "auth:b")).0 ≡ (count_active busy (text "auth:b")).0)
unfolding lookup text_discrete ℕ_discrete
release_frees_example =
    release_frees busy (text "r1") (text "auth:b") running
      ((λ e. ground arith, (λ e. ground arith, tt)), ((λ e. ground arith, tt), (tt, tt))) refl
      (λ e. ground arith) (λ e. ground arith)

key_of_keeps_count_example :
    let aliases = text "auth:a" ∷ text "index:1" ∷ [] in
    (count_active busy (text "auth:a")).0
    ≤ (count_active (key_of busy aliases).0 (key_of busy aliases).1).0
unfolding lookup text_discrete ℕ_discrete
key_of_keeps_count_example =
    key_of_keeps_count busy (text "auth:a") (text "auth:a") (text "auth:a" ∷ text "index:1" ∷ [])
      refl refl (λ e. ground arith)

busy-IsRing : IsRing 8192 busy
unfolding get_elem
busy-IsRing = record {
  fits = omega arith;
  next_lt = omega arith;
  starts = λ h. refl;
  once = λ i j x e f. absurd (cc);
  is_marked = λ i x e. absurd (cc);
}

register_after_release_example :
    let h =
      run (release busy (text "r1")).0 (releases (text "r2") ∷ registers (text "r4") none 8 ∷ []) in
    register h (text "r1") (some (text "t9")) 10 ≡ (h, [])
unfolding has_mark lookup byte_len
register_after_release_example =
    register_after_release busy (text "r1") (some (text "t9")) 10
      (releases (text "r2") ∷ registers (text "r4") none 8 ∷ []) busy-IsRing refl refl (omega arith)

run-IsRing_example : IsRing 8192 (run busy (releases (text "r1") ∷ releases (text "r2") ∷ []))
run-IsRing_example = run-IsRing busy (releases (text "r1") ∷ releases (text "r2") ∷ []) busy-IsRing

abbrev sent : Request
sent = record running { auth_index = text "1"; dispatched = true }

abbrev sending : System
sending = record {
  gate = record busy { requests = (text "r1", sent) ∷ [] };
  guard = [];
  bans = record {
    bans = [];
    total_429s = 0;
    probation_429s = 0;
    probe_starts = 0;
    probe_successes = 0;
    probe_failures = 0;
  };
}

release_rejected_isolates_example :
    let t = (release_rejected_attempt sending (text "r1") 9 minute hour).0 in
    (lookup (text "r1") t.gate.requests
      ≡ some (record sent { key = []; auth_id = []; auth_index = []; dispatched = false }))
    × ((e : RecoveryEntry) × (lookup (text "a") t.guard ≡ some e) × (e.ready ≡ false))
    × (lookup (text "a") t.bans.bans ≢ none)
unfolding lookup text_discrete ℕ_discrete trim_space
release_rejected_isolates_example =
    release_rejected_isolates sending (text "r1") sent 9 minute hour tt tt refl refl refl
      (λ e. ground arith) (λ e. ground arith)

abbrev ending : Runtime
ending = record {
  system = sending;
  pacing = record {
    reservations = (text "r1", record { at = 8; dispatched = true; scope = []; interval = 0 }) ∷ [];
    cycles = [];
    current_scope = [];
    last_by_auth = [];
    usage = [];
    usage_bindings = [];
    next_permit = 8;
    last_permit = 8;
    last_interval = 0;
  };
  sessions = record { sessions = []; pruned_at = 0; switches = 0; clock = 0 };
}

abbrev ended : Completion
ended = record { request_id = text "r1"; outcome = text "succeeded"; status_code = 200 }

handle_complete-IsGone_example : IsGone (text "r1") (handle_complete ending ended 9 minute hour).0
handle_complete-IsGone_example =
    handle_complete-IsGone ending ended 9 minute hour (λ e. ground arith)
