-- ===== src/Continuity/Examples.antt =====
-- The theorems on the pacing gate at concrete gates.
use cpa_codex_quota_schedule.Common.{
  ◌≤◌, ◌*◌, false, List, [], ◌∷◌, ◌≡◌, inr, refl, arith, text, text_discrete, ℕ_discrete, lookup,
  insert, revise, trim_space, byte_len, second, minute,
}
use cpa_codex_quota_schedule.Continuity.Gate.{Scope, Reservation, Gate, scopes_overlap}
use cpa_codex_quota_schedule.Continuity.Pace.{
  drop_lapsed, first_slot, after_dispatches, after_reservations, book, pace_held, pace,
}
use cpa_codex_quota_schedule.Continuity.Spacing.{IsPaced}
use cpa_codex_quota_schedule.Continuity.Calls.{Call, paces, dispatches, completes, run, run-IsPaced}
use cpa_codex_quota_schedule.Continuity.Promise.{pace-pace}

abbrev scope : Scope
scope = (text "a", record { index = text "1"; reset = 900 * second; weekly_only = false }) ∷ []

abbrev first : Reservation
first = record { at = 100 * second; dispatched = false; scope = scope; interval = 10 * second }

abbrev gate : Gate
gate = record {
  reservations = (text "r1", first) ∷ [];
  cycles = scope;
  current_scope = scope;
  last_by_auth = [];
  usage = [];
  usage_bindings = [];
  next_permit = 110 * second;
  last_permit = 0;
  last_interval = 10 * second;
}

gate-IsPaced : IsPaced gate
gate-IsPaced = record { spaced = (tt, tt); bounded = omega arith }

run-IsPaced_example : IsPaced (
    run gate (
      paces (text "r2") (20 * second) second minute (101 * second)
      ∷ dispatches (text "r1") (text "a") (102 * second)
      ∷ completes (text "r1") (103 * second)
      ∷ []))
run-IsPaced_example = run-IsPaced gate _ gate-IsPaced

abbrev next : Reservation
next = record { at = 120 * second; dispatched = false; scope = scope; interval = 20 * second }

pace-next : pace gate (text "r2") (20 * second) second minute (101 * second) ≡ (
  record gate {
    reservations = (text "r1", first) ∷ (text "r2", next) ∷ [];
    next_permit = 140 * second;
    last_interval = 20 * second;
  },
  19 * second,
)
unfolding pace pace_held book drop_lapsed first_slot after_dispatches after_reservations
    scopes_overlap lookup insert revise trim_space byte_len text_discrete ℕ_discrete
pace-next = refl

-- While r2 waits, r3 asks and r1 is dispatched and completes.
abbrev meanwhile : List Call
meanwhile =
    paces (text "r3") (20 * second) second minute (110 * second)
    ∷ dispatches (text "r1") (text "a") (111 * second)
    ∷ completes (text "r1") (115 * second)
    ∷ []

pace-pace_example :
    let first = pace gate (text "r2") (20 * second) second minute (101 * second) in
    (first.1 ≤ minute)
    × ((pace (run first.0 meanwhile) (text "r2") (20 * second) second minute (125 * second)).1 ≡ 0)
unfolding pace pace_held book drop_lapsed first_slot after_dispatches after_reservations
    scopes_overlap lookup insert revise trim_space byte_len text_discrete ℕ_discrete
pace-pace_example =
    pace-pace gate (text "r2") (20 * second) second minute (101 * second) (125 * second) next
      meanwhile (tt, tt) (inr (λ e. ground arith), tt) refl refl
      ((λ e. ground arith, omega arith), ((λ e. ground arith), ((λ e. ground arith), tt)))
      (omega arith) (omega arith)
