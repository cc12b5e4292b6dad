-- ===== src/Continuity/Spacing.antt =====
-- continuity.go: the distance in time between the reservations that share a credential.
use cpa_codex_quota_schedule.Common.{
  ◌+◌, ◌-◌, ◌≤◌, max, true, false, not, ◌&&◌, ◌||◌, [], ◌∷◌, Option, none, some, ltb, leb, ◌≡◌, ◌⊎◌,
  inl, inr, refl, arith, if◌then◌else◌, Text, is_empty, trim_space, text_discrete, Dict, lookup,
  insert, delete, revise, Time, Duration, after, length, All, Bool-cases, length-insert,
  length-delete, length-revise, lookup-delete, byte_len, second, if_pos, if_neg,
}
use cpa_codex_quota_schedule.Continuity.Gate.{
  Scope, Reservation, Gate, max_reservations, scopes_overlap, same_scope, recompute_next,
}
use cpa_codex_quota_schedule.Continuity.Pace.{
  drop_lapsed, after_dispatches, after_reservations, first_slot, book, pace_held, pace,
}

-- One of the two has been dispatched, or they share no credential, or the second is not sooner after
-- the first than either interval.
abbrev pub IsAfter : Reservation → Reservation → Type 0
IsAfter r s =
    (r.dispatched ≡ true)
    ⊎ (s.dispatched ≡ true)
    ⊎ (scopes_overlap r.scope s.scope ≡ false)
    ⊎ ((r.at + r.interval ≤ s.at) × (r.at + s.interval ≤ s.at))

-- Each reservation keeps its distance to those that were booked before it.
abbrev pub Spaced : Dict Reservation → Type 0
Spaced [] = Unit
Spaced ((id, r) ∷ m) = All (λ e. IsAfter r e.1) m × Spaced m

module _ (f : Text → Reservation → Option Reservation) where
  -- The revision keeps an entry as it is, or drops it.
  abbrev pub Filters : Type 0
  Filters = (id : Text) (r : Reservation) → (f id r ≡ none) ⊎ (f id r ≡ some r)

  All-revise :
      (r : Reservation) (m : Dict Reservation)
      → Filters
      → All (λ e. IsAfter r e.1) m
      → All (λ e. IsAfter r e.1) (revise f m)
  unfolding revise
  All-revise r [] k h = tt
  All-revise r ((id, s) ∷ m) k h = elim (k id s) [
    | inl e ↦ rw (e, revise) (All-revise r m k h.1)
    | inr e ↦ rw (e, revise) (h.0, All-revise r m k h.1)
  ]

  Spaced-revise : (m : Dict Reservation) → Filters → Spaced m → Spaced (revise f m)
  unfolding revise
  Spaced-revise [] k h = tt
  Spaced-revise ((id, r) ∷ m) k h = elim (k id r) [
    | inl e ↦ rw (e, revise) (Spaced-revise m k h.1)
    | inr e ↦ rw (e, revise) (All-revise r m k h.0, Spaced-revise m k h.1)
  ]

All-delete :
    (id : Text) (r : Reservation) (m : Dict Reservation)
    → All (λ e. IsAfter r e.1) m
    → All (λ e. IsAfter r e.1) (delete id m)
unfolding delete
All-delete id r [] h = tt
All-delete id r ((k, s) ∷ m) h = elim (text_discrete k id) [
  | yes e ↦ rw (if_pos _ e) (All-delete id r m h.1)
  | no n ↦ rw (if_neg _ n) (h.0, All-delete id r m h.1)
]

Spaced-delete : (id : Text) (m : Dict Reservation) → Spaced m → Spaced (delete id m)
unfolding delete
Spaced-delete id [] h = tt
Spaced-delete id ((k, s) ∷ m) h = elim (text_discrete k id) [
  | yes e ↦ rw (if_pos _ e) (Spaced-delete id m h.1)
  | no n ↦ rw (if_neg _ n) (All-delete id s m h.0, Spaced-delete id m h.1)
]

-- A reservation that keeps its distance to every other one may be written.
All-insert :
    (id : Text) (r s : Reservation) (m : Dict Reservation)
    → IsAfter r s
    → All (λ e. IsAfter r e.1) m
    → All (λ e. IsAfter r e.1) (insert id s m)
unfolding insert
All-insert id r s [] a h = (a, tt)
All-insert id r s ((k, x) ∷ m) a h = elim (text_discrete k id) [
  | yes e ↦ rw (if_pos _ e) (a, h.1)
  | no n ↦ rw (if_neg _ n) (h.0, All-insert id r s m a h.1)
]

pub Spaced-insert :
    (id : Text) (s : Reservation) (m : Dict Reservation)
    → lookup id m ≡ none
    → All (λ e. IsAfter e.1 s) m
    → Spaced m
    → Spaced (insert id s m)
unfolding insert lookup
Spaced-insert id s [] n a h = (tt, tt)
Spaced-insert id s ((k, x) ∷ m) n a h = elim (text_discrete k id) [
  | yes e ↦ absurd (ground arith)
  | no d ↦
      rw (if_neg _ d) (All-insert id x s m a.0 h.0, Spaced-insert id s m (ground arith) a.1 h.1)
]

-- A dispatched reservation keeps no distance.
All-dispatched :
    (r : Reservation) (m : Dict Reservation) → r.dispatched ≡ true → All (λ e. IsAfter r e.1) m
All-dispatched r [] d = tt
All-dispatched r (e ∷ m) d = (inl d, All-dispatched r m d)

pub Spaced-mark :
    (id : Text) (s : Reservation) (m : Dict Reservation)
    → s.dispatched ≡ true
    → Spaced m
    → Spaced (insert id s m)
unfolding insert
Spaced-mark id s [] d h = (tt, tt)
Spaced-mark id s ((k, x) ∷ m) d h = elim (text_discrete k id) [
  | yes e ↦ rw (if_pos _ e) (All-dispatched s m d, h.1)
  | no n ↦ rw (if_neg _ n) (All-insert id x s m (inr (inl d)) h.0, Spaced-mark id s m d h.1)
]

after_reservations-le :
    (m : Dict Reservation) (interval : Duration) (scope : Scope) (at : Time)
    → at ≤ after_reservations m interval scope at
unfolding after_reservations
after_reservations-le [] interval scope at = omega arith
after_reservations-le ((id, r) ∷ m) interval scope at =
    let k = after_reservations-le m interval scope (
      if not r.dispatched
        && scopes_overlap r.scope scope
        && after (r.at + max interval r.interval) at
      then r.at + max interval r.interval
      else at) in
    ground (arith, k)

abbrev booked : Time → Scope → Duration → Reservation
booked at scope interval = record {
  at = at;
  dispatched = false;
  scope = scope;
  interval = interval;
}

after_reservations-IsAfter :
    (m : Dict Reservation) (interval : Duration) (scope : Scope) (at t : Time)
    → after_reservations m interval scope at ≤ t
    → All (λ e. IsAfter e.1 (booked t scope interval)) m
unfolding after_reservations
after_reservations-IsAfter [] interval scope at t h = tt
after_reservations-IsAfter ((id, r) ∷ m) interval scope at t h =
    let next =
      if not r.dispatched
        && scopes_overlap r.scope scope
        && after (r.at + max interval r.interval) at
      then r.at + max interval r.interval
      else at in
    (
      ground (arith, after_reservations-le m interval scope next),
      after_reservations-IsAfter m interval scope next t h,
    )

scopes_overlap-none : (a : Scope) → scopes_overlap a [] ≡ false
unfolding scopes_overlap lookup
scopes_overlap-none [] = refl
scopes_overlap-none (e ∷ a) = scopes_overlap-none a

no_scope-IsAfter :
    (m : Dict Reservation) (at : Time) (interval : Duration)
    → All (λ e. IsAfter e.1 (booked at [] interval)) m
no_scope-IsAfter [] at interval = tt
no_scope-IsAfter ((id, r) ∷ m) at interval =
    (inr (inr (inl (scopes_overlap-none r.scope))), no_scope-IsAfter m at interval)

first_slot-IsAfter :
    (g : Gate) (interval : Duration) (now : Time)
    → All
        (λ e. IsAfter e.1 (booked (first_slot g interval now) g.current_scope interval))
        g.reservations
unfolding first_slot
first_slot-IsAfter g interval now = by_scope g.current_scope refl
  where
    by_scope :
        (scope : Scope)
        → g.current_scope ≡ scope
        → All
            (λ e. IsAfter e.1 (booked (first_slot g interval now) g.current_scope interval))
            g.reservations
    by_scope [] e = rw e (no_scope-IsAfter g.reservations _ interval)
    by_scope (c ∷ scope) e =
        after_reservations-IsAfter g.reservations interval g.current_scope
          (after_dispatches g.last_by_auth interval g.current_scope now) _ (rw e (ground arith))

-- What the reservations of a gate keep.
pub record IsPaced (g : Gate) : Type 0 where
  pub spaced : Spaced g.reservations
  pub bounded : length g.reservations ≤ max_reservations

book-IsPaced :
    (g : Gate) (id : Text) (interval poll max_wait : Duration) (now : Time)
    → lookup id g.reservations ≡ none
    → IsPaced g
    → IsPaced (book g id interval poll max_wait now).0
unfolding book
book-IsPaced g id interval poll max_wait now n h =
    elim (Bool-cases (
      leb max_reservations (length g.reservations)
      || ltb max_wait (first_slot g interval now - now))) [
        | inl e ↦ rw (e, book) h
        | inr e ↦
            rw (e, book)
              (record {
                spaced =
                    Spaced-insert id _ g.reservations n (first_slot-IsAfter g interval now)
                      h.spaced;
                bounded = ground (
                  arith,
                  length-insert id (booked (first_slot g interval now) g.current_scope interval)
                      g.reservations,
                );
              })
      ]

pub delete-IsPaced :
    (g : Gate) (id : Text) (now : Time)
    → IsPaced g
    → IsPaced (recompute_next (record g { reservations = delete id g.reservations }) now)
unfolding recompute_next
delete-IsPaced g id now h = record {
  spaced = Spaced-delete id g.reservations h.spaced;
  bounded = omega (arith, length-delete id g.reservations, h.bounded);
}

pub revise-IsPaced :
    (g : Gate) (f : Text → Reservation → Option Reservation)
    → Filters f
    → IsPaced g
    → IsPaced (record g { reservations = revise f g.reservations })
revise-IsPaced g f k h = record {
  spaced = Spaced-revise f g.reservations k h.spaced;
  bounded = omega (arith, length-revise f g.reservations, h.bounded);
}

pub lookup-delete_self : (id : Text) (m : Dict Reservation) → lookup id (delete id m) ≡ none
lookup-delete_self id m = ground (arith, lookup-delete id id m)

pace_held-IsPaced :
    (g : Gate) (id : Text) (interval poll max_wait : Duration) (now : Time) (o : Option Reservation)
    → lookup id g.reservations ≡ o
    → IsPaced g
    → IsPaced (pace_held g id interval poll max_wait now o).0
unfolding pace_held
pace_held-IsPaced g id interval poll max_wait now none e h =
    book-IsPaced g id interval poll max_wait now e h
pace_held-IsPaced g id interval poll max_wait now (some r) e h =
    elim (Bool-cases (not r.dispatched && not (same_scope r.scope g.current_scope))) [
      | inl k ↦
          rw (k, pace_held)
            (book-IsPaced _ id interval poll max_wait now
              (unfold recompute_next in lookup-delete_self id g.reservations)
              (delete-IsPaced g id now h))
      | inr k ↦ rw (k, pace_held) h
    ]

-- A booking keeps the distances and the bound.
pub pace-IsPaced :
    (g : Gate) (id : Text) (interval poll max_wait : Duration) (now : Time)
    → IsPaced g
    → IsPaced (pace g id interval poll max_wait now).0
unfolding pace drop_lapsed
pace-IsPaced g id interval poll max_wait now h =
    elim (Bool-cases
      (is_empty (trim_space id) || ltb 512 (byte_len (trim_space id)) || ltb interval second)) [
        | inl e ↦ rw (e, pace) h
        | inr e ↦
            rw (e, pace)
              (pace_held-IsPaced _ (trim_space id) interval poll max_wait now _ refl
                (revise-IsPaced g _ (λ k r. ground arith) h))
      ]
