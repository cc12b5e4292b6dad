-- ===== src/Concurrency/Waiting.antt =====
-- concurrency.go: the requests that wait for a credential, and the first of them.
use mathlib.Core.Path.{subst}
use cpa_codex_quota_schedule.Common.{
  ℕ, ◌≤◌, ◌<◌, Bool, true, not, ◌&&◌, [], ◌∷◌, some, ◌==◌, ◌≡◌, ◌≢◌, ◌⊎◌, inl, inr, arith, Text,
  is_empty, text_discrete, Dict, lookup, Time, is_zero, before, All, IsMap, Bool-cases,
  lookup-Absent, Absent, ltb,
}
use cpa_codex_quota_schedule.Concurrency.Ledger.{Request, has_mark}

-- The request waits for the key, is not rejected and not past its deadline.
pub record IsWaiting (key : Text) (now : Time) (r : Request) : Type 0 where
  pub queued : r.queue_sequence ≢ 0
  pub for_key : has_mark key r.wait_keys ≡ true
  pub unrejected : r.rejection ≡ []
  pub in_time : (r.queue_deadline ≡ 0) ⊎ (now < r.queue_deadline)

-- No waiting request has a lesser number.
abbrev pub IsLeast : Text → Time → ℕ → Dict Request → Type 0
IsLeast key now n rs = All (λ e. IsWaiting key now e.1 → n ≤ e.1.queue_sequence) rs

abbrev pub waits : Text → Time → Request → Bool
waits key now r =
    not (r.queue_sequence == 0)
    && has_mark key r.wait_keys
    && is_empty r.rejection
    && not (not (is_zero r.queue_deadline) && not (before now r.queue_deadline))

pub waits-IsWaiting :
    (key : Text) (now : Time) (r : Request) → waits key now r ≡ true → IsWaiting key now r
waits-IsWaiting key now r h = record {
  queued = ground arith;
  for_key = ground arith;
  unrejected = ground arith;
  in_time = ground arith;
}

pub IsWaiting-waits :
    (key : Text) (now : Time) (r : Request) → IsWaiting key now r → waits key now r ≡ true
IsWaiting-waits key now r h = ground (arith, h.queued, h.for_key, h.unrejected, h.in_time)

IsLeast-le :
    (key : Text) (now : Time) (m n : ℕ) (rs : Dict Request)
    → m ≤ n
    → IsLeast key now n rs
    → IsLeast key now m rs
IsLeast-le key now m n [] l h = tt
IsLeast-le key now m n ((k, x) ∷ rs) l h =
    (λ w. omega (arith, h.0 w), IsLeast-le key now m n rs l h.1)

IsLeast-idle :
    (key : Text) (now : Time) (n : ℕ) (rs : Dict Request)
    → All (λ e. ¬ IsWaiting key now e.1) rs
    → IsLeast key now n rs
IsLeast-idle key now n [] h = tt
IsLeast-idle key now n ((k, x) ∷ rs) h = (λ w. absurd (h.0 w), IsLeast-idle key now n rs h.1)

-- Either none waits, or one that waits has the least number.
abbrev pub HasFirst : Text → Time → Dict Request → Type 0
HasFirst key now rs =
    All (λ e. ¬ IsWaiting key now e.1) rs
    ⊎ ((i : Text) × (f : Request) × (lookup i rs ≡ some f)
        × IsWaiting key now f
        × IsLeast key now f.queue_sequence rs)

HasFirst-waiting :
    (key : Text) (now : Time) (k : Text) (x : Request) (rs : Dict Request)
    → Absent k rs
    → IsWaiting key now x
    → HasFirst key now rs
    → HasFirst key now ((k, x) ∷ rs)
unfolding lookup
HasFirst-waiting key now k x rs a w (inl n) =
    inr (k, x, ground arith, w, (λ v. omega arith, IsLeast-idle key now x.queue_sequence rs n))
HasFirst-waiting key now k x rs a w (inr (i, f, e, v, l)) =
    elim (Bool-cases (ltb x.queue_sequence f.queue_sequence)) [
      | inl b ↦
          let le : x.queue_sequence ≤ f.queue_sequence = ground arith in
          inr (
            k,
            x,
            ground arith,
            w,
            (λ v. omega arith, IsLeast-le key now x.queue_sequence f.queue_sequence rs le l),
          )
      | inr b ↦ inr (i, f, ground (arith, lookup-Absent k rs a), v, (λ v. ground arith, l))
    ]

HasFirst-idle :
    (key : Text) (now : Time) (k : Text) (x : Request) (rs : Dict Request)
    → Absent k rs
    → ¬ IsWaiting key now x
    → HasFirst key now rs
    → HasFirst key now ((k, x) ∷ rs)
unfolding lookup
HasFirst-idle key now k x rs a w (inl n) = inl (w, n)
HasFirst-idle key now k x rs a w (inr (i, f, e, v, l)) =
    inr (i, f, ground (arith, lookup-Absent k rs a), v, (λ u. absurd (w u), l))

pub least_waiting : (key : Text) (now : Time) (rs : Dict Request) → IsMap rs → HasFirst key now rs
least_waiting key now [] m = inl tt
least_waiting key now ((k, x) ∷ rs) m =
    let rest = least_waiting key now rs m.1 in
    elim (Bool-cases (waits key now x)) [
      | inl b ↦ HasFirst-waiting key now k x rs m.0 (waits-IsWaiting key now x b) rest
      | inr b ↦ HasFirst-idle key now k x rs m.0 (λ w. cc (b, IsWaiting-waits key now x w)) rest
    ]

pub IsLeast-lookup :
    (key : Text) (now : Time) (n : ℕ) (i : Text) (r : Request) (rs : Dict Request)
    → IsLeast key now n rs
    → lookup i rs ≡ some r
    → IsWaiting key now r
    → n ≤ r.queue_sequence
unfolding lookup
IsLeast-lookup key now n i r [] h e w = absurd (cc)
IsLeast-lookup key now n i r ((k, x) ∷ rs) h e w = elim (text_discrete k i) [
  | yes d ↦
      let q : x ≡ r = ground arith in
      subst (λ y. IsWaiting key now y → n ≤ y.queue_sequence) q h.0 w
  | no d ↦ IsLeast-lookup key now n i r rs h.1 (ground arith) w
]

pub idle-lookup :
    (key : Text) (now : Time) (i : Text) (r : Request) (rs : Dict Request)
    → All (λ e. ¬ IsWaiting key now e.1) rs
    → lookup i rs ≡ some r
    → ¬ IsWaiting key now r
unfolding lookup
idle-lookup key now i r [] h e w = absurd (cc)
idle-lookup key now i r ((k, x) ∷ rs) h e w = elim (text_discrete k i) [
  | yes d ↦ let q : x ≡ r = ground arith in subst (λ y. ¬ IsWaiting key now y) q h.0 w
  | no d ↦ idle-lookup key now i r rs h.1 (ground arith) w
]
