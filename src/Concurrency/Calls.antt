-- ===== src/Concurrency/Calls.antt =====
-- concurrency.go: any sequence of calls on the ledger, and the ring of completions over it.
use cpa_codex_quota_schedule.Common.{
  ℕ, ◌+◌, ◌-◌, ◌≤◌, ◌<◌, Bool, true, false, List, [], ◌∷◌, Option, none, some, ◌≡◌, ◌⊎◌, inl, inr,
  refl, arith, Text, Time,
}
use cpa_codex_quota_schedule.Concurrency.Ledger.{
  Marks, has_mark, Gate, is_id, register, expire, add_request, remember, remember_completed,
  release, registration_limit,
}
use cpa_codex_quota_schedule.Concurrency.Queue.{
  key_of, admit, start_wait, end_wait, reject, begin_warmup, detach,
}
use cpa_codex_quota_schedule.Concurrency.Ring.{
  IsRing, Stays, remember-IsRing, remember-Stays, remember-Stays_new,
}

pub data Call : Type 0 where
  registers : Text → Option Text → Time → Call
  releases detaches ends : Text → Call
  merges : List Text → Call
  admits : Text → Text → Text → Text → Call
  waits : Text → Marks → Text → Text → Time → Call
  rejects : Option Text → Text → Text → ℕ → Time → Call
  warms : List Text → Text → Bool → Option Text → Time → Call

unfoldable pub step : Gate → Call → Gate
step g (registers id token now) = (register g id token now).0
step g (releases id) = (release g id).0
step g (detaches id) = detach g id
step g (ends id) = end_wait g id
step g (merges aliases) = (key_of g aliases).0
step g (admits id key auth_id session) = admit g id key auth_id session
step g (waits id keys auth_id reason now) = start_wait g id keys auth_id reason now
step g (rejects me code mode limit now) = reject g me code mode limit now
step g (warms aliases auth_id is_held random now) =
    (begin_warmup g aliases auth_id is_held random now).0

unfoldable pub run : Gate → List Call → Gate
run g [] = g
run g (c ∷ cs) = run (step g c) cs

abbrev pub ends_request : Call → ℕ
ends_request (releases id) = 1
ends_request (registers id token now) = 0
ends_request (detaches id) = 0
ends_request (ends id) = 0
ends_request (merges aliases) = 0
ends_request (admits id key auth_id session) = 0
ends_request (waits id keys auth_id reason now) = 0
ends_request (rejects me code mode limit now) = 0
ends_request (warms aliases auth_id is_held random now) = 0

-- How many requests the calls end.
abbrev pub completions : List Call → ℕ
completions [] = 0
completions (c ∷ cs) = ends_request c + completions cs

-- The two ledgers remember the same completions.
record SameRing (g h : Gate) : Type 0 where
  marks : h.completed ≡ g.completed
  ids : h.completed_ids ≡ g.completed_ids
  next : h.completed_next ≡ g.completed_next

key_of-SameRing : (g : Gate) (aliases : List Text) → SameRing g (key_of g aliases).0
unfolding key_of
key_of-SameRing g aliases = record { marks = ground arith; ids = ground arith; next = ground arith }

register-SameRing :
    (g : Gate) (id : Text) (token : Option Text) (now : Time)
    → SameRing g (register g id token now).0
unfolding register add_request expire
register-SameRing g id token now = record {
  marks = ground arith;
  ids = ground arith;
  next = ground arith;
}

warm-SameRing :
    (g : Gate) (aliases : List Text) (auth_id : Text) (is_held : Bool) (random : Option Text)
    (now : Time)
    → SameRing g (begin_warmup g aliases auth_id is_held random now).0
unfolding begin_warmup
warm-SameRing g aliases auth_id is_held none now =
    let k = key_of-SameRing g aliases in
    record {
      marks = ground (arith, k.marks);
      ids = ground (arith, k.ids);
      next = ground (arith, k.next);
    }
warm-SameRing g aliases auth_id is_held (some random) now =
    let k = key_of-SameRing g aliases in
    record {
      marks = ground (arith, k.marks);
      ids = ground (arith, k.ids);
      next = ground (arith, k.next);
    }

-- Only the end of a request turns the ring.
step-SameRing : (g : Gate) (c : Call) → ends_request c ≡ 0 → SameRing g (step g c)
unfolding step detach end_wait admit start_wait reject
step-SameRing g (releases id) e = absurd (omega arith)
step-SameRing g (registers id token now) e = register-SameRing g id token now
step-SameRing g (merges aliases) e = key_of-SameRing g aliases
step-SameRing g (warms aliases auth_id is_held random now) e =
    warm-SameRing g aliases auth_id is_held random now
step-SameRing g (detaches id) e = record {
  marks = ground arith;
  ids = ground arith;
  next = ground arith;
}
step-SameRing g (ends id) e = record {
  marks = ground arith;
  ids = ground arith;
  next = ground arith;
}
step-SameRing g (admits id key auth_id session) e = record {
  marks = ground arith;
  ids = ground arith;
  next = ground arith;
}
step-SameRing g (waits id keys auth_id reason now) e = record {
  marks = ground arith;
  ids = ground arith;
  next = ground arith;
}
step-SameRing g (rejects me code mode limit now) e = record {
  marks = ground arith;
  ids = ground arith;
  next = ground arith;
}

SameRing-IsRing : (size : ℕ) (g h : Gate) → SameRing g h → IsRing size g → IsRing size h
SameRing-IsRing size g h s r = record {
  fits = rw s.ids r.fits;
  next_lt = rw s.next r.next_lt;
  starts = rw (s.ids, s.next) r.starts;
  once = rw s.ids r.once;
  is_marked = rw (s.ids, s.marks) r.is_marked;
}

SameRing-Stays :
    (size : ℕ) (g h : Gate) (id : Text) (n : ℕ)
    → SameRing g h
    → Stays size g id n
    → Stays size h id n
SameRing-Stays size g h id n s k = record {
  place = k.place;
  holds = rw s.ids k.holds;
  ahead = rw (s.ids, s.next) k.ahead;
}

-- The end of a request changes the ring as remembering does.
release-SameRing : (g : Gate) (id : Text) → SameRing (remember_completed g id) (release g id).0
unfolding release
release-SameRing g id = record { marks = ground arith; ids = ground arith; next = ground arith }

-- A call ends no request, or turns the ring as remembering one id does.
step-cases :
    (g : Gate) (c : Call)
    → (ends_request c ≡ 0)
      ⊎ ((id : Text) × (ends_request c ≡ 1)
          × SameRing (remember registration_limit g id) (step g c))
unfolding step remember_completed
step-cases g (releases id) = inr (id, refl, release-SameRing g id)
step-cases g (registers id token now) = inl refl
step-cases g (detaches id) = inl refl
step-cases g (ends id) = inl refl
step-cases g (merges aliases) = inl refl
step-cases g (admits id key auth_id session) = inl refl
step-cases g (waits id keys auth_id reason now) = inl refl
step-cases g (rejects me code mode limit now) = inl refl
step-cases g (warms aliases auth_id is_held random now) = inl refl

step-IsRing :
    (g : Gate) (c : Call) → IsRing registration_limit g → IsRing registration_limit (step g c)
step-IsRing g c r = elim (step-cases g c) [
  | inl e ↦ SameRing-IsRing registration_limit g (step g c) (step-SameRing g c e) r
  | inr (id, e, s) ↦
      SameRing-IsRing registration_limit _ (step g c) s (remember-IsRing registration_limit g id r)
]

Stays-le : (size m n : ℕ) (g : Gate) (id : Text) → n ≤ m → Stays size g id m → Stays size g id n
Stays-le size m n g id h s = record {
  place = s.place;
  holds = s.holds;
  ahead = ground (arith, s.ahead);
}

step-Stays :
    (g : Gate) (c : Call) (id : Text) (n : ℕ)
    → IsRing registration_limit g
    → Stays registration_limit g id (ends_request c + n)
    → Stays registration_limit (step g c) id n
step-Stays g c id n r s = elim (step-cases g c) [
  | inl e ↦
      SameRing-Stays registration_limit g (step g c) id n (step-SameRing g c e)
        (Stays-le registration_limit (ends_request c + n) n g id (omega (arith, e)) s)
  | inr (x, e, q) ↦
      let k : Stays registration_limit g id (n + 1) =
        Stays-le registration_limit (ends_request c + n) (n + 1) g id (omega (arith, e)) s in
      SameRing-Stays registration_limit _ (step g c) id n q
        (remember-Stays registration_limit g x id n r k)
]

-- Every sequence of calls keeps the ring of completions in order: no more than registration_limit of
-- them, each once, and each one known as completed.
pub run-IsRing :
    (g : Gate) (cs : List Call) → IsRing registration_limit g → IsRing registration_limit (run g cs)
unfolding run
run-IsRing g [] r = r
run-IsRing g (c ∷ cs) r = run-IsRing (step g c) cs (step-IsRing g c r)

run-Stays :
    (g : Gate) (cs : List Call) (id : Text) (n : ℕ)
    → IsRing registration_limit g
    → Stays registration_limit g id (completions cs + n)
    → Stays registration_limit (run g cs) id n
unfolding run
run-Stays g [] id n r s = Stays-le registration_limit (0 + n) n g id (omega arith) s
run-Stays g (c ∷ cs) id n r s = run-Stays (step g c) cs id n (step-IsRing g c r) (
    step-Stays g c id (completions cs + n) r
      (Stays-le registration_limit (ends_request c + completions cs + n) _ g id (omega arith) s))

register-completed :
    (g : Gate) (id : Text) (token : Option Text) (now : Time)
    → has_mark id g.completed ≡ true
    → register g id token now ≡ (g, [])
unfolding register
register-completed g id token now h = ground arith

-- A request that has ended is not registered again by a late callback, whatever calls come between,
-- as long as they end fewer than registration_limit requests.
pub register_after_release :
    (g : Gate) (id : Text) (token : Option Text) (now : Time) (cs : List Call)
    → IsRing registration_limit g
    → is_id id ≡ true
    → has_mark id g.completed ≡ false
    → completions cs < registration_limit
    → let h = run (release g id).0 cs in register h id token now ≡ (h, [])
unfolding remember_completed
register_after_release g id token now cs r i m h =
    let started = remember-IsRing registration_limit g id r in
    let new =
      SameRing-Stays registration_limit _ _ id (registration_limit - 1) (release-SameRing g id)
        (remember-Stays_new registration_limit g id r i m) in
    let ring = SameRing-IsRing registration_limit _ _ (release-SameRing g id) started in
    let kept = run-Stays (release g id).0 cs id 0 ring (
      Stays-le registration_limit (registration_limit - 1) (completions cs + 0) _ id (omega arith)
        new) in
    register-completed _ id token now
      ((run-IsRing (release g id).0 cs ring).is_marked kept.place id kept.holds)
