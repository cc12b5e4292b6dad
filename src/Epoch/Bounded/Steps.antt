-- ===== src/Epoch/Bounded/Steps.antt =====
-- quota_epoch.go: what the calls of a sweep that looks for a reset leave it to do.
use cpa_codex_quota_schedule.Common.{
  ℕ, ◌+◌, ◌-◌, ◌*◌, ◌≤◌, ◌<◌, true, false, ◌≡◌, ◌≢◌, ◌⊎◌, refl, arith, inl, inr, Text, Dict, length,
  count_where, count_where-le_length, Time, second,
}
use cpa_codex_quota_schedule.Epoch.State.{Target, Sweep, World, is_reset, sweep_max_rounds}
use cpa_codex_quota_schedule.Epoch.Sweep.{is_due}
use cpa_codex_quota_schedule.Epoch.Rounds.{
  Transition, settle_sweep, schedule_next_round, close_sweep,
}
use cpa_codex_quota_schedule.Epoch.Confirm.{decide_sweep, confirm, finalize_sweep}
use cpa_codex_quota_schedule.Epoch.Fresh.{finalize_sweep-active}
use cpa_codex_quota_schedule.Epoch.Bounded.Targets.{Covered, IsShrunk}

-- How many probes the sweep may still send: those of this round, and one for each of n targets in each
-- later round.
abbrev pub work : ℕ → Sweep → ℕ
work n s = (sweep_max_rounds - s.round) * n + count_where (is_due s.round_started_at) s.targets

-- A sweep that looks for a reset, since the instant and in an inventory that the n targets cover.
pub record IsRunning (start deadline : Time) (i : Dict Text) (n : ℕ) (s : Sweep) : Type 0 where
  pub resets : is_reset s.reason ≡ true
  pub number : length s.targets ≤ n
  pub covered : Covered i s.targets
  pub anchored : s.round_started_at ≢ 0
  pub opened : (s.round_started_at ≤ start) ⊎ (s.round_started_at ≤ s.next_round_at)
  pub limited : s.deadline ≡ deadline

module _ (start deadline : Time) (i : Dict Text) (n : ℕ) where
  -- A call that sends k probes leaves less to do, or ends the sweep.
  abbrev pub Progress : ℕ → Sweep → Sweep → Type 0
  Progress k s u =
      ((u.active ≡ false) × (k ≡ 0)) ⊎ (IsRunning start deadline i n u × (work n u + k ≤ work n s))

  -- With other targets.
  pub shrunk-IsRunning :
      (s : Sweep) (m : Dict Target) (q : ℕ)
      → IsShrunk s.round_started_at i s.targets m
      → IsRunning start deadline i n s
      → IsRunning start deadline i n (record s { targets = m; required = q })
  shrunk-IsRunning s m q h r = record {
    resets = r.resets;
    number = omega (arith, h.number, r.number);
    covered = h.covered r.covered;
    anchored = r.anchored;
    opened = r.opened;
    limited = r.limited;
  }

  pub shrunk-Progress :
      (s : Sweep) (m : Dict Target) (q : ℕ)
      → IsShrunk s.round_started_at i s.targets m
      → IsRunning start deadline i n s
      → Progress 0 s (record s { targets = m; required = q })
  shrunk-Progress s m q h r = inr (shrunk-IsRunning s m q h r, omega (arith, h.due))

  next_round-work :
      (s : Sweep) (next : Time)
      → s.round < 4
      → length s.targets ≤ n
      → work n (record s { round = s.round + 1; round_started_at = next; next_round_at = next })
        ≤ work n s
  next_round-work s next l h =
      let k = 4 - (s.round + 1) in
      let e : 4 - s.round ≡ k + 1 = omega arith in
      rw e (omega (arith, count_where-le_length (is_due next) s.targets))

  next_round : Sweep → Time → Sweep
  next_round s next = record s {
    round = s.round + 1;
    round_started_at = next;
    next_round_at = next;
  }

  settle_sweep-cases :
      (w : World) (t : Transition) (now : Time)
      → ((settle_sweep w t now).epoch.sweep.active ≡ false)
        ⊎ (((settle_sweep w t now).epoch.sweep ≡ w.epoch.sweep)
            ⊎ ((w.epoch.sweep.round < 4)
                × ((settle_sweep w t now).epoch.sweep
                    ≡ next_round w.epoch.sweep (now + 45 * second))))
  unfolding settle_sweep close_sweep schedule_next_round next_round
  settle_sweep-cases w t now = ground arith

  settle_sweep-Progress :
      (w : World) (t : Transition) (now : Time)
      → IsRunning start deadline i n w.epoch.sweep
      → Progress 0 w.epoch.sweep (settle_sweep w t now).epoch.sweep
  unfolding next_round
  settle_sweep-Progress w t now r = elim (settle_sweep-cases w t now) [
    | inl c ↦ inl (c, refl)
    | inr (inl e) ↦ rw e (inr (r, omega arith))
    | inr (inr (l, e)) ↦ rw e (
        inr (
          record {
            resets = r.resets;
            number = r.number;
            covered = r.covered;
            anchored = omega arith;
            opened = inr (omega arith);
            limited = r.limited;
          },
          omega (arith, next_round-work w.epoch.sweep (now + 45 * second) l r.number),
        ))
  ]

  -- The parts of a sweep on which its work depends.
  record IsSame (s u : Sweep) : Type 0 where
    reason_kept : u.reason ≡ s.reason
    targets_kept : u.targets ≡ s.targets
    round_kept : u.round ≡ s.round
    start_kept : u.round_started_at ≡ s.round_started_at
    next_kept : u.next_round_at ≡ s.next_round_at
    deadline_kept : u.deadline ≡ s.deadline

  IsSame-IsRunning :
      (s u : Sweep) → IsSame s u → IsRunning start deadline i n s → IsRunning start deadline i n u
  IsSame-IsRunning s u e r = record {
    resets = rw e.reason_kept r.resets;
    number = rw e.targets_kept r.number;
    covered = rw e.targets_kept r.covered;
    anchored = rw e.start_kept r.anchored;
    opened = rw (e.start_kept, e.next_kept) r.opened;
    limited = rw e.deadline_kept r.limited;
  }

  IsSame-work : (s u : Sweep) → IsSame s u → work n u ≡ work n s
  IsSame-work s u e = rw (e.round_kept, e.start_kept, e.targets_kept) refl

  module _ (decimal : ℕ → Text) where
    decide_sweep-IsSame :
        (w : World) (now : Time)
        → is_reset w.epoch.sweep.reason ≡ true
        → IsSame w.epoch.sweep (decide_sweep decimal w now).0.epoch.sweep
    unfolding decide_sweep confirm
    decide_sweep-IsSame w now r = ground arith

    pub finalize_sweep-Progress :
        (w : World) (now : Time)
        → w.epoch.sweep.active ≡ true
        → IsRunning start deadline i n w.epoch.sweep
        → Progress 0 w.epoch.sweep (finalize_sweep decimal w now).0.epoch.sweep
    finalize_sweep-Progress w now a r =
        let d = decide_sweep decimal w now in
        let e = decide_sweep-IsSame w now r.resets in
        let v = IsSame-IsRunning w.epoch.sweep d.0.epoch.sweep e r in
        rw (finalize_sweep-active decimal w now a) (
          rw (IsSame-work w.epoch.sweep d.0.epoch.sweep e) at (settle_sweep-Progress d.0 d.1 now v))
