-- ===== src/Quota/Restricted.antt =====
-- quota_window_normalize.go: exhausted rows among duplicates.
use cpa_codex_quota_schedule.Common.{
  Bool, true, false, ◌&&◌, ◌||◌, List, [], ◌∷◌, ◌++◌, map, ltb, Text, is_empty, same, text_discrete,
  Time, Duration, any, All, ◌≡◌, ◌≢◌, ◌⊎◌, inl, inr, refl, ap, arith, Bool-cases, length,
}
use cpa_codex_quota_schedule.Quota.{QuotaWindow, normalize_window_class}
use cpa_codex_quota_schedule.Quota.Normalize.{
  hard_restriction, window_preferred, observed_or, retain_metadata, combine, place, prepared,
  place_row, place_rows, normalize_window_set,
}
use cpa_codex_quota_schedule.Quota.Merging.{class_fixed, retain-same, combine-class}

hard-retain :
    (w v : QuotaWindow) (now : Time) (stale : Duration)
    → hard_restriction (retain_metadata w v now stale) ≡ hard_restriction w
unfolding hard_restriction
hard-retain w v now stale = ground (arith, retain-same w v now stale)

preferred-hard :
    (w v : QuotaWindow) (fallback : Time)
    → observed_or fallback w ≡ observed_or fallback v
    → hard_restriction w ≢ hard_restriction v
    → window_preferred w v fallback ≡ hard_restriction w
unfolding window_preferred
preferred-hard w v fallback e n = ground arith

-- A row of the class that is exhausted.
abbrev pub is_hard_row : Text → QuotaWindow → Bool
is_hard_row c w = same (normalize_window_class w.class) c && hard_restriction w

abbrev pub has_hard_row : Text → List QuotaWindow → Bool
has_hard_row c ws = any (is_hard_row c) ws

-- A row of the class is observed at t.
abbrev pub IsAt : Time → Text → Time → QuotaWindow → Type 0
IsAt fallback c t w = (normalize_window_class w.class ≢ c) ⊎ (observed_or fallback w ≡ t)

module _ (fallback now : Time) (stale : Duration) where
  combine-hard :
      (w v : QuotaWindow)
      → observed_or fallback w ≡ observed_or fallback v
      → hard_restriction (combine fallback now stale w v)
        ≡ (hard_restriction v || hard_restriction w)
  unfolding combine
  combine-hard w v e =
      ground
        (arith, hard-retain w v now stale, hard-retain v w now stale, preferred-hard w v fallback e)

  combine-time :
      (w v : QuotaWindow)
      → observed_or fallback w ≡ observed_or fallback v
      → observed_or fallback (combine fallback now stale w v) ≡ observed_or fallback v
  unfolding combine
  combine-time w v e = ground (arith, retain-same w v now stale, retain-same v w now stale)

  module _ (c : Text) (t : Time) where
    place-IsAt :
        (w : QuotaWindow) (out : List QuotaWindow)
        → IsAt fallback c t w
        → All (IsAt fallback c t) out
        → All (IsAt fallback c t) (place fallback now stale w out)
    unfolding place
    place-IsAt w [] h k = (h, tt)
    place-IsAt w (v ∷ out) h k = elim (text_discrete v.class w.class) [
      | yes e ↦ let y : same v.class w.class ≡ true = ground arith in rw (y, place) (joined e, k.1)
      | no d ↦
          let y : same v.class w.class ≡ false = ground arith in
          rw (y, place) (k.0, place-IsAt w out h k.1)
    ]
      where
        joined : v.class ≡ w.class → IsAt fallback c t (combine fallback now stale w v)
        joined e =
            let q = ap normalize_window_class (combine-class fallback now stale w v e) in
            let p = ap normalize_window_class e in ground (arith, h, k.0, combine-time w v, q, p)

    place-hard :
        (w : QuotaWindow) (out : List QuotaWindow)
        → IsAt fallback c t w
        → All (IsAt fallback c t) out
        → has_hard_row c (place fallback now stale w out) ≡ (has_hard_row c out || is_hard_row c w)
    unfolding place
    place-hard w [] h k = ground arith
    place-hard w (v ∷ out) h k = elim (text_discrete v.class w.class) [
      | yes e ↦ let y : same v.class w.class ≡ true = ground arith in rw (y, place) (joined e)
      | no d ↦
          let y : same v.class w.class ≡ false = ground arith in
          rw (y, place) (ground (arith, place-hard w out h k.1))
    ]
      where
        joined :
            v.class ≡ w.class
            → has_hard_row c (combine fallback now stale w v ∷ out)
              ≡ (has_hard_row c (v ∷ out) || is_hard_row c w)
        joined e =
            let q = ap normalize_window_class (combine-class fallback now stale w v e) in
            let p = ap normalize_window_class e in ground (arith, h, k.0, combine-hard w v, q, p)

    append-IsAt :
        (w : QuotaWindow) (out : List QuotaWindow)
        → IsAt fallback c t w
        → All (IsAt fallback c t) out
        → All (IsAt fallback c t) (out ++ w ∷ [])
    append-IsAt w [] h k = (h, tt)
    append-IsAt w (v ∷ out) h k = (k.0, append-IsAt w out h k.1)

    append-hard :
        (w : QuotaWindow) (out : List QuotaWindow)
        → has_hard_row c (out ++ w ∷ []) ≡ (has_hard_row c out || is_hard_row c w)
    append-hard w [] = ground arith
    append-hard w (v ∷ out) = ground (arith, append-hard w out)

    prepared-IsAt :
        (w : QuotaWindow) → IsAt fallback c t w → IsAt fallback c t (prepared fallback w)
    unfolding prepared
    prepared-IsAt w h = ground (arith, h, class_fixed w.class)

    prepared-hard : (w : QuotaWindow) → is_hard_row c (prepared fallback w) ≡ is_hard_row c w
    unfolding prepared hard_restriction
    prepared-hard w = ground (arith, class_fixed w.class)

    place_row-hard :
        (w : QuotaWindow) (out : List QuotaWindow)
        → IsAt fallback c t w
        → All (IsAt fallback c t) out
        → (has_hard_row c (place_row fallback now stale w out)
            ≡ (has_hard_row c out || is_hard_row c w))
          × All (IsAt fallback c t) (place_row fallback now stale w out)
    unfolding place_row
    place_row-hard w out h k =
        let p = prepared-IsAt w h in
        let q = prepared-hard w in
        elim (Bool-cases (is_empty (normalize_window_class w.class))) [
          | inl e ↦
              rw (e, place_row)
                (
                  cc (append-hard (prepared fallback w) out, q),
                  append-IsAt (prepared fallback w) out p k,
                )
          | inr e ↦
              rw (e, place_row)
                (
                  cc (place-hard (prepared fallback w) out p k, q),
                  place-IsAt (prepared fallback w) out p k,
                )
        ]

    place_rows-hard :
        (ws out : List QuotaWindow)
        → All (IsAt fallback c t) ws
        → All (IsAt fallback c t) out
        → has_hard_row c (place_rows fallback now stale ws out)
          ≡ (has_hard_row c out || has_hard_row c ws)
    unfolding place_rows
    place_rows-hard [] out h k = ground arith
    place_rows-hard (w ∷ ws) out h k =
        let p = place_row-hard w out h.0 k in
        let q = place_rows-hard ws (place_row fallback now stale w out) h.1 p.1 in
        ground (arith, p.0, q)

    map-hard :
        (ws : List QuotaWindow) → has_hard_row c (map (prepared fallback) ws) ≡ has_hard_row c ws
    map-hard [] = refl
    map-hard (w ∷ ws) = rw (prepared-hard w, map-hard ws) refl

-- If the rows of a class are all observed at one time, the normalized set has an exhausted row of
-- the class exactly when the set had one: duplicates never hide an exhausted window.
pub normalize-hard :
    (ws : List QuotaWindow) (fallback now : Time) (stale : Duration) (c : Text) (t : Time)
    → All (IsAt fallback c t) ws
    → has_hard_row c (normalize_window_set ws fallback now stale) ≡ has_hard_row c ws
unfolding normalize_window_set
normalize-hard ws fallback now stale c t h = elim (Bool-cases (ltb (length ws) 2)) [
  | inl e ↦ rw e (map-hard fallback now stale c t ws)
  | inr e ↦ rw e (place_rows-hard fallback now _ c t ws [] h tt)
]
