-- ===== src/Concurrency/Ring.antt =====
-- concurrency.go: the ring of completions that rememberCompletedLocked turns.
use cpa_codex_quota_schedule.Common.{
  ℕ, ◌+◌, ◌-◌, ◌%◌, ◌≤◌, ◌<◌, true, false, not, ◌||◌, [], ◌∷◌, ◌++◌, some, ltb, ◌≡◌, ◌≢◌, ◌⊎◌, inl,
  inr, arith, Text, insert, length, length-append, Bool-cases, dec_lt, ℕ_discrete,
}
use native.Mathlib.Nat.{mod-eq_of_lt, mod_self}
use cpa_codex_quota_schedule.Concurrency.Ledger.{
  has_mark, Gate, is_id, get_elem, set_elem, unmark, remember,
}
use cpa_codex_quota_schedule.Concurrency.Elements.{
  length-set, get-set_self, get-set_ne, get-append, get-append_last, get-bound, has_mark-insert,
  has_mark-insert_self, has_mark-unmark,
}

-- The ring holds each id once, every id that it holds is marked, and it turns only when it is full.
pub record IsRing (size : ℕ) (g : Gate) : Type 0 where
  pub fits : length g.completed_ids ≤ size
  pub next_lt : g.completed_next < size
  pub starts : length g.completed_ids < size → g.completed_next ≡ 0
  pub once :
      (i j : ℕ) (x : Text)
      → get_elem g.completed_ids i ≡ some x
      → get_elem g.completed_ids j ≡ some x
      → i ≡ j
  pub is_marked :
      (i : ℕ) (x : Text) → get_elem g.completed_ids i ≡ some x → has_mark x g.completed ≡ true

-- The id stands in the ring, with at least n more completions to go before its slot is taken.
pub record Stays (size : ℕ) (g : Gate) (id : Text) (n : ℕ) : Type 0 where
  pub place : ℕ
  pub holds : get_elem g.completed_ids place ≡ some id
  pub ahead :
      (place < g.completed_next) × (n + g.completed_next ≤ size + place)
      ⊎ (g.completed_next ≤ place) × (n + g.completed_next + length g.completed_ids ≤ size + place)

-- Where the next slot goes.
mod-next :
    (k size : ℕ)
    → k < size
    → ((k + 1 < size) × ((k + 1) % size ≡ k + 1)) ⊎ ((k + 1 ≡ size) × ((k + 1) % size ≡ 0))
mod-next k size h = elim (dec_lt (k + 1) size) [
  | yes l ↦ inl (l, mod-eq_of_lt l)
  | no n ↦ let e : k + 1 ≡ size = omega arith in inr (e, cc (mod_self size))
]

unmarked-ne :
    (g : Gate) (size i : ℕ) (x : Text)
    → IsRing size g
    → has_mark x g.completed ≡ false
    → get_elem g.completed_ids i ≢ some x
unmarked-ne g size i x r m = λ e. cc (r.is_marked i x e)

appended : Gate → Text → Gate
appended g x = record g {
  completed = insert x true g.completed;
  completed_ids = g.completed_ids ++ x ∷ [];
}

appended-IsRing :
    (size : ℕ) (g : Gate) (x : Text)
    → IsRing size g
    → has_mark x g.completed ≡ false
    → length g.completed_ids < size
    → IsRing size (appended g x)
unfolding appended
appended-IsRing size g x r m h = record {
  fits = omega (arith, length-append g.completed_ids (x ∷ []));
  next_lt = r.next_lt;
  starts = λ k. r.starts h;
  once = λ i j y e f. elim (place i y e) [
    | inl a ↦ elim (place j y f) [
      | inl b ↦ r.once i j y a b
      | inr b ↦ absurd (unmarked-ne g size i x r m (cc))
    ]
    | inr a ↦ elim (place j y f) [ inl b ↦ absurd (unmarked-ne g size j x r m (cc)) | inr b ↦ cc ]
  ];
  is_marked = λ i y e. elim (place i y e) [
    | inl a ↦ has_mark-insert x y g.completed (r.is_marked i y a)
    | inr a ↦ cc (has_mark-insert_self x g.completed)
  ];
}
  where
    place :
        (i : ℕ) (y : Text)
        → get_elem (g.completed_ids ++ x ∷ []) i ≡ some y
        → (get_elem g.completed_ids i ≡ some y) ⊎ ((i ≡ length g.completed_ids) × (x ≡ y))
    place i y e = elim (dec_lt i (length g.completed_ids)) [
      | yes l ↦ inl (cc (get-append g.completed_ids x i l))
      | no n ↦
          let b = get-bound _ i y e in
          let q = length-append g.completed_ids (x ∷ []) in
          let k : i ≡ length g.completed_ids = omega (arith, b, q, n) in
          inr (k, cc (get-append_last g.completed_ids x))
    ]

replaced : ℕ → Gate → Text → Gate
replaced size g x = record g {
  completed = unmark (get_elem g.completed_ids g.completed_next) (insert x true g.completed);
  completed_ids = set_elem g.completed_ids g.completed_next x;
  completed_next = (g.completed_next + 1) % size;
}

replaced-IsRing :
    (size : ℕ) (g : Gate) (x : Text)
    → IsRing size g
    → has_mark x g.completed ≡ false
    → length g.completed_ids ≡ size
    → IsRing size (replaced size g x)
unfolding replaced
replaced-IsRing size g x r m h = record {
  fits = omega (arith, length-set g.completed_ids g.completed_next x);
  next_lt = ground (arith, mod-next g.completed_next size r.next_lt);
  starts = λ k. absurd (omega (arith, k, length-set g.completed_ids g.completed_next x));
  once = λ i j y e f. elim (place i y e) [
    | inl a ↦ elim (place j y f) [
      | inl b ↦ r.once i j y a.1 b.1
      | inr b ↦ absurd (unmarked-ne g size i x r m (cc))
    ]
    | inr a ↦ elim (place j y f) [ inl b ↦ absurd (unmarked-ne g size j x r m (cc)) | inr b ↦ cc ]
  ];
  is_marked = λ i y e. elim (place i y e) [
    | inl a ↦
        has_mark-unmark _ y _ (λ q. a.0 (r.once g.completed_next i y q a.1))
          (has_mark-insert x y g.completed (r.is_marked i y a.1))
    | inr a ↦
        has_mark-unmark _ y _ (λ q. unmarked-ne g size g.completed_next y r (cc) q)
          (cc (has_mark-insert_self x g.completed))
  ];
}
  where
    place :
        (i : ℕ) (y : Text)
        → get_elem (set_elem g.completed_ids g.completed_next x) i ≡ some y
        → ((g.completed_next ≢ i) × (get_elem g.completed_ids i ≡ some y))
          ⊎ ((i ≡ g.completed_next) × (x ≡ y))
    place i y e = elim (ℕ_discrete g.completed_next i) [
      | yes k ↦
          inr
            (cc, cc (get-set_self g.completed_ids g.completed_next x (omega (arith, r.next_lt, h))))
      | no n ↦ inl (n, cc (get-set_ne g.completed_ids g.completed_next i x n))
    ]

-- Remembering keeps the ring in order.
pub remember-IsRing :
    (size : ℕ) (g : Gate) (x : Text) → IsRing size g → IsRing size (remember size g x)
unfolding remember appended replaced
remember-IsRing size g x r = elim (Bool-cases (not (is_id x) || has_mark x g.completed)) [
  | inl e ↦ rw (e, remember) r
  | inr e ↦
      let m : has_mark x g.completed ≡ false = ground arith in
      elim (Bool-cases (ltb (length g.completed_ids) size)) [
        | inl l ↦ rw (e, remember, l) (appended-IsRing size g x r m (ground arith))
        | inr l ↦ rw (e, remember, l) (replaced-IsRing size g x r m (ground (arith, r.fits)))
      ]
]

appended-Stays :
    (size : ℕ) (g : Gate) (x id : Text) (n : ℕ)
    → IsRing size g
    → length g.completed_ids < size
    → Stays size g id (n + 1)
    → Stays size (appended g x) id n
unfolding appended
appended-Stays size g x id n r h s =
    let b = get-bound g.completed_ids s.place id s.holds in
    record {
      place = s.place;
      holds = cc (get-append g.completed_ids x s.place b, s.holds);
      ahead = ground (arith, s.ahead, r.starts h, length-append g.completed_ids (x ∷ []));
    }

replaced-Stays :
    (size : ℕ) (g : Gate) (x id : Text) (n : ℕ)
    → IsRing size g
    → length g.completed_ids ≡ size
    → Stays size g id (n + 1)
    → Stays size (replaced size g x) id n
unfolding replaced
replaced-Stays size g x id n r h s =
    let b = get-bound g.completed_ids s.place id s.holds in
    let d : g.completed_next ≢ s.place = (λ e. ground (arith, s.ahead)) in
    record {
      place = s.place;
      holds = cc (get-set_ne g.completed_ids g.completed_next s.place x d, s.holds);
      ahead = ground (
        arith,
        s.ahead,
        length-set g.completed_ids g.completed_next x,
        mod-next g.completed_next size r.next_lt,
      );
    }

-- One more completion takes at most one place.
pub remember-Stays :
    (size : ℕ) (g : Gate) (x id : Text) (n : ℕ)
    → IsRing size g
    → Stays size g id (n + 1)
    → Stays size (remember size g x) id n
unfolding remember appended replaced
remember-Stays size g x id n r s = elim (Bool-cases (not (is_id x) || has_mark x g.completed)) [
  | inl e ↦
      rw (e, remember)
        (record { place = s.place; holds = s.holds; ahead = ground (arith, s.ahead) })
  | inr e ↦ elim (Bool-cases (ltb (length g.completed_ids) size)) [
    | inl l ↦ rw (e, remember, l) (appended-Stays size g x id n r (ground arith) s)
    | inr l ↦ rw (e, remember, l) (replaced-Stays size g x id n r (ground (arith, r.fits)) s)
  ]
]

pub remember-Stays_new :
    (size : ℕ) (g : Gate) (id : Text)
    → IsRing size g
    → is_id id ≡ true
    → has_mark id g.completed ≡ false
    → Stays size (remember size g id) id (size - 1)
unfolding remember
remember-Stays_new size g id r i m = elim (Bool-cases (ltb (length g.completed_ids) size)) [
  | inl l ↦
      rw (i, m, remember, l)
        (record {
          place = length g.completed_ids;
          holds = get-append_last g.completed_ids id;
          ahead = ground (arith, r.starts, length-append g.completed_ids (id ∷ []));
        })
  | inr l ↦
      rw (i, m, remember, l)
        (record {
          place = g.completed_next;
          holds =
              get-set_self g.completed_ids g.completed_next id (ground (arith, r.next_lt, r.fits));
          ahead = ground (
            arith,
            mod-next g.completed_next size r.next_lt,
            r.next_lt,
            length-set g.completed_ids g.completed_next id,
            r.fits,
          );
        })
]
