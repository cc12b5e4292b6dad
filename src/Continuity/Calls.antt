-- ===== src/Continuity/Calls.antt =====
-- continuity.go: any sequence of calls on the pacing gate.
use cpa_codex_quota_schedule.Common.{
  Bool, List, [], ◌∷◌, ◌≡◌, inl, inr, refl, ◌∙◌, arith, Text, trim_space, length-insert_held, Dict,
  lookup, Time, Duration, Option-cases, Bool-cases,
}
use cpa_codex_quota_schedule.Continuity.Gate.{
  Scope, Gate, recompute_next, complete, dispatch, clear_pacing, set_pacing_cycle,
  clear_pacing_scope,
}
use cpa_codex_quota_schedule.Continuity.Pace.{
  pace, note_usage, prune_usage, prune_cycles, prune_continuity,
}
use cpa_codex_quota_schedule.Continuity.Spacing.{
  IsPaced, Spaced-mark, revise-IsPaced, delete-IsPaced, pace-IsPaced,
}

pub data Call : Type 0 where
  paces : Text → Duration → Duration → Duration → Time → Call
  completes : Text → Time → Call
  dispatches : Text → Text → Time → Call
  clears : Time → Call
  sets_cycle : Scope → Time → Call
  clears_scope : Scope → Text → Time → Call
  notes : Text → Text → Bool → Time → Call
  prunes : Dict Text → Call

unfoldable pub step : Gate → Call → Gate
step g (paces id interval poll max_wait now) = (pace g id interval poll max_wait now).0
step g (completes id now) = complete g id now
step g (dispatches id selected now) = dispatch g id selected now
step g (clears now) = clear_pacing g now
step g (sets_cycle scope now) = set_pacing_cycle g scope now
step g (clears_scope scope request now) = clear_pacing_scope g scope request now
step g (notes id index is_valid now) = note_usage g id index is_valid now
step g (prunes inventory) = prune_continuity g inventory

unfoldable pub run : Gate → List Call → Gate
run g [] = g
run g (c ∷ cs) = run (step g c) cs

dispatch-IsPaced :
    (g : Gate) (id selected : Text) (now : Time) → IsPaced g → IsPaced (dispatch g id selected now)
unfolding dispatch recompute_next
dispatch-IsPaced g id selected now h = elim (Option-cases (lookup (trim_space id) g.reservations)) [
  | inl e ↦ rw (e, dispatch) h
  | inr (r, e) ↦ elim (Bool-cases r.dispatched) [
    | inl d ↦ rw (e, dispatch, d) h
    | inr d ↦
        rw (e, dispatch, d)
          (record {
            spaced = Spaced-mark (trim_space id) _ g.reservations refl h.spaced;
            bounded = rw (length-insert_held (trim_space id) r _ g.reservations e) h.bounded;
          })
  ]
]

pub prune_usage-same :
    (us : List (Text × List Time)) (inventory : Dict Text) (g : Gate)
    → (prune_usage us inventory g).reservations ≡ g.reservations
unfolding prune_usage
prune_usage-same [] inventory g = refl
prune_usage-same ((id, ts) ∷ us) inventory g = prune_usage-same us inventory _ ∙ ground arith

pub prune_cycles-same :
    (cs : Scope) (inventory : Dict Text) (g : Gate)
    → (prune_cycles cs inventory g).reservations ≡ g.reservations
unfolding prune_cycles
prune_cycles-same [] inventory g = refl
prune_cycles-same ((id, c) ∷ cs) inventory g = prune_cycles-same cs inventory _ ∙ ground arith

same-IsPaced : (g h : Gate) → h.reservations ≡ g.reservations → IsPaced g → IsPaced h
same-IsPaced g h e k = record { spaced = rw e k.spaced; bounded = rw e k.bounded }

step-IsPaced : (g : Gate) (c : Call) → IsPaced g → IsPaced (step g c)
unfolding step complete clear_pacing set_pacing_cycle clear_pacing_scope note_usage prune_continuity
    recompute_next
step-IsPaced g (paces id interval poll max_wait now) h =
    pace-IsPaced g id interval poll max_wait now h
step-IsPaced g (completes id now) h = delete-IsPaced g (trim_space id) now h
step-IsPaced g (dispatches id selected now) h = dispatch-IsPaced g id selected now h
step-IsPaced g (clears now) h =
    let k = revise-IsPaced g _ (λ id r. ground arith) h in
    record { spaced = k.spaced; bounded = k.bounded }
step-IsPaced g (sets_cycle scope now) h =
    let k = revise-IsPaced g _ (λ id r. ground arith) h in
    record { spaced = k.spaced; bounded = k.bounded }
step-IsPaced g (clears_scope scope request now) h =
    let k = revise-IsPaced g _ (λ id r. ground arith) h in
    record { spaced = k.spaced; bounded = k.bounded }
step-IsPaced g (notes id index is_valid now) h = same-IsPaced g _ (ground arith) h
step-IsPaced g (prunes inventory) h =
    same-IsPaced g _ (prune_cycles-same _ inventory _ ∙ prune_usage-same _ inventory g) h

-- From a gate of which it holds, whatever the gate is asked to do: two reservations that share a
-- credential and are not dispatched keep the interval of each of them between their instants, and
-- there are no more reservations than max_reservations.
pub run-IsPaced : (g : Gate) (cs : List Call) → IsPaced g → IsPaced (run g cs)
unfolding run
run-IsPaced g [] h = h
run-IsPaced g (c ∷ cs) h = run-IsPaced (step g c) cs (step-IsPaced g c h)
