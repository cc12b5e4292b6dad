-- ===== src/Concurrency/Turns.antt =====
-- concurrency.go: the order in which the requests that wait for a credential are let in.
use cpa_codex_quota_schedule.Common.{
  ℕ, ◌≤◌, ◌<◌, Bool, true, false, [], ◌∷◌, some, ◌==◌, ◌≡◌, ◌≢◌, ◌⊎◌, inl, inr, refl, arith, Text,
  text_discrete, Dict, lookup, Time, All, IsMap, Bool-cases, lookup-members, ltb, sym, ◌||◌,
}
use cpa_codex_quota_schedule.Concurrency.Ledger.{Request, Gate, has_mark}
use cpa_codex_quota_schedule.Concurrency.Queue.{count_active, waits_before, any_request, blocked}
use cpa_codex_quota_schedule.Concurrency.Waiting.{
  IsWaiting, IsLeast, waits, waits-IsWaiting, least_waiting, IsLeast-lookup, idle-lookup,
}

any_request-lookup :
    (p : Text → Request → Bool) (id : Text) (r : Request) (rs : Dict Request)
    → lookup id rs ≡ some r
    → p id r ≡ true
    → any_request p rs ≡ true
unfolding lookup
any_request-lookup p id r [] e h = absurd (cc)
any_request-lookup p id r ((k, x) ∷ rs) e h = elim (text_discrete k id) [
  | yes d ↦ ground arith
  | no d ↦ ground (arith, any_request-lookup p id r rs)
]

-- While an older request waits for a key, neither rejected nor past its deadline, a request that
-- came later or does not wait is not let in on that key.
blocked_fifo :
    (g : Gate) (key i id : Text) (older r : Request) (limit : ℕ) (now : Time)
    → lookup i g.requests ≡ some older
    → lookup id g.requests ≡ some r
    → i ≢ id
    → older.queue_sequence ≢ 0
    → has_mark key older.wait_keys ≡ true
    → older.rejection ≡ []
    → (older.queue_deadline ≡ 0) ⊎ (now < older.queue_deadline)
    → (r.queue_sequence ≡ 0) ⊎ (older.queue_sequence < r.queue_sequence)
    → blocked g key (some id) limit now ≡ true
unfolding blocked
blocked_fifo g key i id older r limit now e f n s w j d q =
    let a =
      any_request-lookup (waits_before key now (some id) (some r)) i older g.requests e
        (unfold waits_before in ground arith) in
    ground arith

least-unblocked :
    (key : Text) (now : Time) (i : Text) (f : Request) (rs : Dict Request)
    → f.queue_sequence ≢ 0
    → IsLeast key now f.queue_sequence rs
    → any_request (waits_before key now (some i) (some f)) rs ≡ false
least-unblocked key now i f [] n l = refl
least-unblocked key now i f ((k, x) ∷ rs) n l =
    let rest = least-unblocked key now i f rs n l.1 in
    let head : waits_before key now (some i) (some f) k x ≡ false =
      elim (Bool-cases (waits key now x)) [
        | inl b ↦ let q = l.0 (waits-IsWaiting key now x b) in unfold waits_before in ground arith
        | inr b ↦ unfold waits_before in ground arith
      ] in
    ground arith

-- Every other request is in the queue before the one, or fails the admission test.
abbrev pub GoesFirst : Gate → Text → ℕ → Time → Text → Request → Type 0
GoesFirst g key limit now first f =
    All
      (λ e.
        (e.0 ≡ first)
        ⊎ ((e.1.queue_sequence ≢ 0) × (e.1.queue_sequence ≤ f.queue_sequence))
        ⊎ (blocked g key (some e.0) limit now ≡ true))
      g.requests

others-blocked :
    (g : Gate) (key first : Text) (f : Request) (limit : ℕ) (now : Time) (rs : Dict Request)
    → lookup first g.requests ≡ some f
    → IsWaiting key now f
    → All (λ e. lookup e.0 g.requests ≡ some e.1) rs
    → All
        (λ e.
          (e.0 ≡ first)
          ⊎ ((e.1.queue_sequence ≢ 0) × (e.1.queue_sequence ≤ f.queue_sequence))
          ⊎ (blocked g key (some e.0) limit now ≡ true))
        rs
others-blocked g key first f limit now [] e w h = tt
others-blocked g key first f limit now ((k, x) ∷ rs) e w h =
    let rest = others-blocked g key first f limit now rs e w h.1 in
    elim (text_discrete k first) [
      | yes d ↦ (inl d, rest)
      | no d ↦ elim (Bool-cases (x.queue_sequence == 0 || ltb f.queue_sequence x.queue_sequence)) [
        | inr b ↦ (inr (inl (ground arith)), rest)
        | inl b ↦ (
          inr (
              inr (
                blocked_fifo g key first k f x limit now e h.0 (λ p. d (sym p)) w.queued w.for_key
                  w.unrejected w.in_time (ground arith))),
          rest,
        )
      ]
    ]

unblocked :
    (g : Gate) (key : Text) (limit : ℕ) (now : Time) (i : Text) (f : Request)
    → (count_active g key).0 < limit
    → lookup i g.requests ≡ some f
    → any_request (waits_before key now (some i) (some f)) g.requests ≡ false
    → blocked g key (some i) limit now ≡ false
unfolding blocked
unblocked g key limit now i f s e h = ground arith

-- Where a key has a free slot and a request waits for it, some waiting request, of no greater number
-- in the queue than that one, passes the admission test, and every other request fails the test
-- unless it is in the queue with a number that is not greater. To wait is to be in the queue for the
-- key, not rejected and not past the deadline.
pub first_unblocked :
    (g : Gate) (key id : Text) (r : Request) (limit : ℕ) (now : Time)
    → IsMap g.requests
    → (count_active g key).0 < limit
    → lookup id g.requests ≡ some r
    → IsWaiting key now r
    → (first : Text) × (f : Request) × (lookup first g.requests ≡ some f)
      × IsWaiting key now f
      × (f.queue_sequence ≤ r.queue_sequence)
      × (blocked g key (some first) limit now ≡ false)
      × GoesFirst g key limit now first f
first_unblocked g key id r limit now m s e w = elim (least_waiting key now g.requests m) [
  | inl h ↦ absurd (idle-lookup key now id r g.requests h e w)
  | inr (i, f, e', w', l) ↦ (
    i,
    f,
    e',
    w',
    IsLeast-lookup key now f.queue_sequence id r g.requests l e w,
    unblocked g key limit now i f s e' (least-unblocked key now i f g.requests w'.queued l),
    others-blocked g key i f limit now g.requests e' w' (lookup-members g.requests m),
  )
]
