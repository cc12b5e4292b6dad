-- ===== src/Quota/Rows.antt =====
-- quota_window_normalize.go: the rows of a normalized set of windows.
use cpa_codex_quota_schedule.Common.{
  suc, true, false, List, [], ◌∷◌, ◌++◌, map, ltb, Text, is_empty, same, text_discrete, Time,
  Duration, length, All, ◌≡◌, ◌≢◌, ◌⊎◌, inl, inr, refl, sym, ap, ◌∙◌, arith, Bool-cases,
}
use mathlib.Core.Path.{subst}
use mathlib.Core.List.{append_assoc, append-nil}
use cpa_codex_quota_schedule.Quota.{QuotaWindow, normalize_window_class}
use cpa_codex_quota_schedule.Quota.Normalize.{
  combine, place, prepared, place_row, place_rows, normalize_window_set,
}
use cpa_codex_quota_schedule.Quota.Merging.{
  class_fixed, IsPrepared, prepared-IsPrepared, prepared_again, combine-class, combine-IsPrepared,
}

-- A row of no recognized class, or one whose class is in normal form and not that of another row.
abbrev IsOnly : QuotaWindow → List QuotaWindow → Type 0
IsOnly v out =
    (normalize_window_class v.class ≡ [])
    ⊎ ((normalize_window_class v.class ≡ v.class)
        × (v.class ≢ [])
        × All (λ u. u.class ≢ v.class) out)

-- Each recognized class has one row, under its normal name.
abbrev pub IsRows : List QuotaWindow → Type 0
IsRows [] = Unit
IsRows (v ∷ out) = IsOnly v out × IsRows out

module _ (fallback now : Time) (stale : Duration) where
  place-All :
      (c : Text) (w : QuotaWindow) (out : List QuotaWindow)
      → w.class ≢ c
      → All (λ u. u.class ≢ c) out
      → All (λ u. u.class ≢ c) (place fallback now stale w out)
  unfolding place
  place-All c w [] n a = (n, tt)
  place-All c w (v ∷ out) n a = elim (text_discrete v.class w.class) [
    | yes e ↦ ground (arith, a, combine-class fallback now stale w v e)
    | no d ↦ ground (arith, a, place-All c w out n a.1)
  ]

  append-All :
      (c : Text) (w : QuotaWindow) (out : List QuotaWindow)
      → w.class ≢ c
      → All (λ u. u.class ≢ c) out
      → All (λ u. u.class ≢ c) (out ++ w ∷ [])
  append-All c w [] n a = (n, tt)
  append-All c w (v ∷ out) n a = (a.0, append-All c w out n a.1)

  place-IsRows :
      (w : QuotaWindow) (out : List QuotaWindow)
      → normalize_window_class w.class ≡ w.class
      → w.class ≢ []
      → IsRows out
      → IsRows (place fallback now stale w out)
  unfolding place
  place-IsRows w [] e n h = (inr (e, n, tt), tt)
  place-IsRows w (v ∷ out) e n h = elim (text_discrete v.class w.class) [
    | yes d ↦ elim h.0 [
      | inl x ↦ absurd (n (sym e ∙ ap normalize_window_class (sym d) ∙ x))
      | inr (a, b, c) ↦
          let k = combine-class fallback now stale w v d in
          let q : (combine fallback now stale w v).class ≡ v.class = k ∙ sym d in
          let y : same v.class w.class ≡ true = ground arith in
          rw (y, place)
            (
              inr (
                ap normalize_window_class q ∙ a ∙ sym q,
                (λ x. b (sym q ∙ x)),
                subst (λ t. All (λ u. u.class ≢ t) out) (sym q) c,
              ),
              h.1,
            )
    ]
    | no d ↦ ground (arith, h, place-IsRows w out e n h.1, place-All v.class w out (λ x. d (sym x)))
  ]

  append-IsRows :
      (w : QuotaWindow) (out : List QuotaWindow)
      → normalize_window_class w.class ≡ []
      → IsRows out
      → IsRows (out ++ w ∷ [])
  append-IsRows w [] e h = (inl e, tt)
  append-IsRows w (v ∷ out) e h =
      ground (arith, h, append-IsRows w out e h.1, append-All v.class w out)

  place-IsPrepared :
      (w : QuotaWindow) (out : List QuotaWindow)
      → IsPrepared fallback w
      → All (IsPrepared fallback) out
      → All (IsPrepared fallback) (place fallback now stale w out)
  unfolding place
  place-IsPrepared w [] p h = (p, tt)
  place-IsPrepared w (v ∷ out) p h = elim (Bool-cases (same v.class w.class)) [
    | inl e ↦ rw e (combine-IsPrepared fallback now stale w v p h.0, h.1)
    | inr e ↦ rw e (h.0, place-IsPrepared w out p h.1)
  ]

  append-IsPrepared :
      (w : QuotaWindow) (out : List QuotaWindow)
      → IsPrepared fallback w
      → All (IsPrepared fallback) out
      → All (IsPrepared fallback) (out ++ w ∷ [])
  append-IsPrepared w [] p h = (p, tt)
  append-IsPrepared w (v ∷ out) p h = (h.0, append-IsPrepared w out p h.1)

  -- What the loop keeps of its output.
  abbrev IsOutput : List QuotaWindow → Type 0
  IsOutput out = IsRows out × All (IsPrepared fallback) out

  prepared-unknown :
      (w : QuotaWindow)
      → is_empty (normalize_window_class w.class) ≡ true
      → normalize_window_class (prepared fallback w).class ≡ []
  unfolding prepared
  prepared-unknown w e = ground (arith, class_fixed w.class)

  prepared-known :
      (w : QuotaWindow)
      → is_empty (normalize_window_class w.class) ≡ false
      → (normalize_window_class (prepared fallback w).class ≡ (prepared fallback w).class)
        × ((prepared fallback w).class ≢ [])
  unfolding prepared
  prepared-known w e = ground (arith, class_fixed w.class)

  place_row-IsOutput :
      (w : QuotaWindow) (out : List QuotaWindow)
      → IsOutput out
      → IsOutput (place_row fallback now stale w out)
  unfolding place_row
  place_row-IsOutput w out h =
      let p = prepared-IsPrepared fallback w in
      elim (Bool-cases (is_empty (normalize_window_class w.class))) [
        | inl e ↦
            rw (e, place_row)
              (
                append-IsRows (prepared fallback w) out (prepared-unknown w e) h.0,
                append-IsPrepared (prepared fallback w) out p h.1,
              )
        | inr e ↦
            rw (e, place_row)
              (
                place-IsRows (prepared fallback w) out (prepared-known w e).0 (prepared-known w e).1
                    h.0,
                place-IsPrepared (prepared fallback w) out p h.1,
              )
      ]

  place_rows-IsOutput :
      (ws out : List QuotaWindow) → IsOutput out → IsOutput (place_rows fallback now stale ws out)
  unfolding place_rows
  place_rows-IsOutput [] out h = h
  place_rows-IsOutput (w ∷ ws) out h = place_rows-IsOutput ws _ (place_row-IsOutput w out h)

  place-new :
      (w : QuotaWindow) (out : List QuotaWindow)
      → All (λ u. u.class ≢ w.class) out
      → place fallback now stale w out ≡ out ++ w ∷ []
  unfolding place
  place-new w [] a = refl
  place-new w (v ∷ out) a =
      let d : same v.class w.class ≡ false = (let n = a.0 in ground arith) in
      rw (d, place) (ap (λ r. v ∷ r) (place-new w out a.1))

  All-before :
      (w : QuotaWindow) (out ws : List QuotaWindow)
      → normalize_window_class w.class ≢ []
      → IsRows (out ++ w ∷ ws)
      → All (λ u. u.class ≢ w.class) out
  All-before w [] ws n h = tt
  All-before w (v ∷ out) ws n h = (
    elim h.0 [
      | inl x ↦ λ e. n (sym (ap normalize_window_class e) ∙ x)
      | inr (a, b, c) ↦ λ e. All-head out c (sym e)
    ],
    All-before w out ws n h.1,
  )
    where
      All-head :
          (out : List QuotaWindow)
          → All (λ u. u.class ≢ v.class) (out ++ w ∷ ws)
          → w.class ≢ v.class
      All-head [] c = c.0
      All-head (u ∷ out) c = All-head out c.1

  place_row-again :
      (w : QuotaWindow) (out ws : List QuotaWindow)
      → IsRows (out ++ w ∷ ws)
      → IsPrepared fallback w
      → place_row fallback now stale w out ≡ out ++ w ∷ []
  unfolding place_row
  place_row-again w out ws h p =
      let q = prepared_again fallback w p in
      elim (Bool-cases (is_empty (normalize_window_class w.class))) [
        | inl e ↦ rw (e, place_row, q) refl
        | inr e ↦ rw (e, place_row, q) (place-new w out (All-before w out ws (λ x. ground arith) h))
      ]

  place_rows-again :
      (ws out : List QuotaWindow)
      → IsRows (out ++ ws)
      → All (IsPrepared fallback) ws
      → place_rows fallback now stale ws out ≡ out ++ ws
  unfolding place_rows
  place_rows-again [] out h p = sym (append-nil out)
  place_rows-again (w ∷ ws) out h p = rw (place_row-again w out ws h p.0) (
      place_rows-again ws (out ++ w ∷ []) (rw (append_assoc out (w ∷ []) ws) h) p.1
      ∙ append_assoc out (w ∷ []) ws)

  map-prepared_again :
      (ws : List QuotaWindow) → All (IsPrepared fallback) ws → map (prepared fallback) ws ≡ ws
  map-prepared_again [] p = refl
  map-prepared_again (w ∷ ws) p = rw (prepared_again fallback w p.0, map-prepared_again ws p.1) refl

map-IsOutput :
    (fallback now : Time) (stale : Duration) (w : QuotaWindow)
    → IsOutput fallback now stale (prepared fallback w ∷ [])
map-IsOutput fallback now stale w = elim (Bool-cases (is_empty (normalize_window_class w.class))) [
  | inl e ↦
      ((inl (prepared-unknown fallback now stale w e), tt), (prepared-IsPrepared fallback w, tt))
  | inr e ↦
      let k = prepared-known fallback now stale w e in
      ((inr (k.0, k.1, tt), tt), (prepared-IsPrepared fallback w, tt))
]

normalize-IsOutput :
    (ws : List QuotaWindow) (fallback now : Time) (stale : Duration)
    → IsOutput fallback now stale (normalize_window_set ws fallback now stale)
unfolding normalize_window_set
normalize-IsOutput [] fallback now stale = (tt, tt)
normalize-IsOutput (w ∷ []) fallback now stale = map-IsOutput fallback now stale w
normalize-IsOutput (v ∷ w ∷ ws) fallback now stale =
    let e : ltb (suc (suc (length ws))) 2 ≡ false = ground arith in
    rw e (place_rows-IsOutput fallback now _ (v ∷ w ∷ ws) [] (tt, tt))

-- A normalized set has at most one row of each recognized class, under the normal name of the class.
pub normalize-IsRows :
    (ws : List QuotaWindow) (fallback now : Time) (stale : Duration)
    → IsRows (normalize_window_set ws fallback now stale)
normalize-IsRows ws fallback now stale = (normalize-IsOutput ws fallback now stale).0

normalize_again :
    (ws : List QuotaWindow) (fallback now : Time) (stale : Duration)
    → IsOutput fallback now stale ws
    → normalize_window_set ws fallback now stale ≡ ws
unfolding normalize_window_set
normalize_again ws fallback now stale h = elim (Bool-cases (ltb (length ws) 2)) [
  | inl e ↦ rw e (map-prepared_again fallback now stale ws h.1)
  | inr e ↦ rw e (place_rows-again fallback now _ ws [] h.0 h.1)
]

-- Normalizing a normalized set changes nothing.
pub normalize_idempotent :
    (ws : List QuotaWindow) (fallback now : Time) (stale : Duration)
    → let out = normalize_window_set ws fallback now stale in
      normalize_window_set out fallback now stale ≡ out
normalize_idempotent ws fallback now stale =
    normalize_again _ fallback now stale (normalize-IsOutput ws fallback now stale)
