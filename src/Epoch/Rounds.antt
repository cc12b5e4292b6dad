-- ===== src/Epoch/Rounds.antt =====
-- quota_epoch.go: the rounds of a sweep and its end.
use cpa_codex_quota_schedule.Common.{
  ℕ, ◌+◌, Bool, true, false, not, ◌&&◌, ◌||◌, [], ◌∷◌, ltb, ◌==◌, if◌then◌else◌, Text, is_empty,
  Dict, insert, Time, is_zero, before, length,
}
use cpa_codex_quota_schedule.Epoch.State.{
  sweep_round_delay, sweep_max_rounds, Target, Reason, no_reason, Sweep, Poll, World, is_reset,
  poll_of,
}
use cpa_codex_quota_schedule.Epoch.Sweep.{set_sweep, round_start}

pub record Transition : Type 0 where
  pub id : Text
  pub reason : Reason

abbrev pub no_transition : Transition
no_transition = record { id = []; reason = no_reason }

-- How many targets have been asked in this round, and how many have not shown a reset.
unfoldable pub round_progress : Time → Dict Target → ℕ × ℕ
round_progress start [] = (0, 0)
round_progress start ((id, t) ∷ targets) =
    let (attempted, remaining) = round_progress start targets in
    if t.evidence then (attempted, remaining) else (
      (if not (is_zero t.attempted_at) && not (before t.attempted_at start)
          then attempted + 1
          else attempted),
      remaining + 1,
    )

abbrev pub postpone : Time → Poll → Bool
postpone next p = is_empty p.error || before p.next_at next

unfoldable pub postpone_polls : Time → Dict Target → Dict Poll → Dict Poll
postpone_polls next [] polls = polls
postpone_polls next ((id, t) ∷ targets) polls = postpone_polls next targets (
    if not t.evidence && postpone next (poll_of polls id)
    then insert id (record (poll_of polls id) { next_at = next }) polls
    else polls)

abbrev pub may_go_on : Sweep → Time → Bool
may_go_on s now =
    s.active
    && is_reset s.reason
    && ltb s.round sweep_max_rounds
    && (is_zero s.deadline || before (now + sweep_round_delay) s.deadline)

unfoldable pub schedule_next_round : World → Time → World × Bool
schedule_next_round w now =
    let s = w.epoch.sweep in
    let next = now + sweep_round_delay in
    if may_go_on s now
    then (
      record (set_sweep w
          (record s { round = s.round + 1; round_started_at = next; next_round_at = next })) {
            polls = postpone_polls next s.targets w.polls;
          },
      true,
    )
    else (w, false)

unfoldable pub sweep_counts : Time → Dict Target → ℕ × ℕ
sweep_counts start [] = (0, 0)
sweep_counts start ((id, t) ∷ targets) =
    let (observed, evidence) = sweep_counts start targets in
    (
      (if not (is_zero t.observed_at) && not (before t.observed_at start)
          then observed + 1
          else observed),
      (if t.evidence then evidence + 1 else evidence),
    )

abbrev pub is_round_over : Sweep → Bool
is_round_over s =
    let (attempted, remaining) = round_progress (round_start s) s.targets in
    remaining == 0 || attempted == remaining

abbrev pub ends : Sweep → Transition → Time → Bool
ends s t now =
    let (observed, evidence) = sweep_counts s.started_at s.targets in
    not (is_empty t.id)
    || not (before now s.deadline)
    || (not (is_reset s.reason) && observed == length s.targets)

unfoldable pub close_sweep : World → Time → World
close_sweep w now =
    set_sweep w (record w.epoch.sweep { active = false; completed_at = now; next_round_at = 0 })

-- A round that is over without a decision is followed by another one, or the sweep ends.
unfoldable pub settle_sweep : World → Transition → Time → World
settle_sweep w t now =
    let s = w.epoch.sweep in
    let (next, is_scheduled) = schedule_next_round w now in
    if is_empty t.id
      && is_reset s.reason
      && before now s.deadline
      && is_round_over s
      && is_scheduled
    then next
    else (if ends s t now then close_sweep w now else w)
