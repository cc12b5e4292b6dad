-- ===== src/Quota/Windows.antt =====
-- quota_priority.go: quotaPriorityFor on the windows of a credential in any order.
use cpa_codex_quota_schedule.Common.{
  false, not, ◌&&◌, ◌||◌, List, [], ◌∷◌, ◌≡◌, refl, sym, ◌∙◌, ap, arith, ltb, if◌then◌else◌, Text,
  same, Time, is_zero, before, after,
}
use mathlib.Core.List.{Permᴰ}
use cpa_codex_quota_schedule.Quota.{QuotaWindow, QuotaSnapshot, normalize_window_class}
use cpa_codex_quota_schedule.Quota.Cycle.{has_placeholder_reset, cycle_started}
use cpa_codex_quota_schedule.Quota.Priority.{
  Candidate, Priority, add_window, add_windows, quota_priority_for,
}

-- What one window says of the class.
data Effect : Type 0 where
  skips dormant : Effect
  started : Time → Effect

abbrev effect : QuotaSnapshot → Time → Text → QuotaWindow → Effect
effect s now class w =
    if not (same (normalize_window_class w.class) class)
      || (not (is_zero w.reset_at) && not (after w.reset_at now))
    then skips
    else (if has_placeholder_reset w s.refreshed_at now
        then dormant
        else (if not (is_zero w.reset_at) && cycle_started w s.refreshed_at now
            then started w.reset_at
            else skips))

abbrev applied : Priority → Effect → Priority
applied p skips = p
applied p dormant = if ltb 1 p.deadline_kind then record p { deadline_kind = 1 } else p
applied p (started t) =
    if is_zero p.reset_at || before t p.reset_at
    then record p { deadline_kind = 0; reset_at = t }
    else p

add_window-applied :
    (s : QuotaSnapshot) (now : Time) (p : Priority) (w : QuotaWindow)
    → add_window s now p w ≡ applied p (effect s now p.window w)
unfolding add_window
add_window-applied s now p w = ground arith

applied-window : (p : Priority) (e : Effect) → (applied p e).window ≡ p.window
applied-window p skips = refl
applied-window p dormant = ground arith
applied-window p (started t) = ground arith

-- A window that has started has a reset.
abbrev IsReset : Effect → Type 0
IsReset skips = Unit
IsReset dormant = Unit
IsReset (started t) = is_zero t ≡ false

effect-IsReset :
    (s : QuotaSnapshot) (now : Time) (class : Text) (w : QuotaWindow)
    → IsReset (effect s now class w)
effect-IsReset s now class w = ground arith

applied_comm :
    (p : Priority) (d e : Effect)
    → IsReset d
    → IsReset e
    → applied (applied p d) e ≡ applied (applied p e) d
applied_comm p skips e h k = refl
applied_comm p dormant skips h k = refl
applied_comm p (started t) skips h k = refl
applied_comm p dormant dormant h k = refl
applied_comm p dormant (started t) h k = ground arith
applied_comm p (started t) dormant h k = ground arith
applied_comm p (started t) (started u) h k = ground arith

add_window_comm :
    (s : QuotaSnapshot) (now : Time) (p : Priority) (v w : QuotaWindow)
    → add_window s now (add_window s now p v) w ≡ add_window s now (add_window s now p w) v
add_window_comm s now p v w =
    both v w
    ∙ applied_comm p _ _ (effect-IsReset s now p.window v) (effect-IsReset s now p.window w)
    ∙ sym (both w v)
  where
    both :
        (v w : QuotaWindow)
        → add_window s now (add_window s now p v) w
          ≡ applied (applied p (effect s now p.window v)) (effect s now p.window w)
    both v w =
        rw
          (
            add_window-applied s now p v,
            add_window-applied s now (applied p (effect s now p.window v)) w,
            applied-window p (effect s now p.window v),
          )
          refl

add_windows-perm :
    (s : QuotaSnapshot) (now : Time) {vs ws : List QuotaWindow}
    → Permᴰ vs ws
    → (p : Priority) → add_windows s now p vs ≡ add_windows s now p ws
unfolding add_windows
add_windows-perm s now Permᴰ.nil p = refl
add_windows-perm s now (Permᴰ.cons {a = a} {b = b} {l₁ = l₁} {l₂ = l₂} e d) p =
    add_windows-perm s now d (add_window s now p a)
    ∙ ap (λ w. add_windows s now (add_window s now p w) l₂) e
add_windows-perm s now (Permᴰ.swap {a = a} {b = b} {l = l} e f) p =
    rw (sym e, sym f) (ap (λ q. add_windows s now q l) (add_window_comm s now p a b))
add_windows-perm s now (Permᴰ.trans d e) p = add_windows-perm s now d p ∙ add_windows-perm s now e p

-- Of the snapshot only the time of the refresh counts.
add_windows-reordered :
    (s : QuotaSnapshot) (us : List QuotaWindow) (now : Time) (p : Priority) (ws : List QuotaWindow)
    → add_windows (record s { windows = us }) now p ws ≡ add_windows s now p ws
unfolding add_windows add_window
add_windows-reordered s us now p [] = refl
add_windows-reordered s us now p (w ∷ ws) = add_windows-reordered s us now (add_window s now p w) ws

-- A credential whose windows stand in another order has the same priority.
pub quota_priority_for-perm :
    (c : Candidate) (order : List Text) (now : Time) (ws : List QuotaWindow)
    → Permᴰ ws c.snapshot.windows
    → quota_priority_for (record c { snapshot = record c.snapshot { windows = ws } }) order now
      ≡ quota_priority_for c order now
unfolding quota_priority_for
quota_priority_for-perm c order now ws h =
    add_windows-reordered c.snapshot ws now _ ws ∙ add_windows-perm c.snapshot now h _
