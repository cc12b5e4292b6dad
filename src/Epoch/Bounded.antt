-- ===== src/Epoch/Bounded.antt =====
-- quota_epoch.go: a sweep that looks for a reset, from its begin to its end, while the inventory stays
-- the same.
mod Targets
mod Steps
mod Probes
mod Calls
use cpa_codex_quota_schedule.Common.{
  ℕ, ◌+◌, ◌*◌, ◌≤◌, Bool, true, false, List, ◌∷◌, [], ◌≡◌, ◌≢◌, ◌⊎◌, refl, ap, arith, inl, inr,
  Bool-cases, Text, trim_space, Dict, revise, All, length, count_where, count_where-le_length, Time,
  if◌then◌else◌, ◌==◌,
}
use cpa_codex_quota_schedule.Epoch.State.{
  sweep_window, Reason, Poll, Sweep, World, provider_reset, quorum,
}
use cpa_codex_quota_schedule.Epoch.Sweep.{
  is_due, in_inventory, add_targets, begin_sweep, started_sweep, fresh_sweep,
}
use cpa_codex_quota_schedule.Epoch.Rounds.{
  Transition, settle_sweep, close_sweep, schedule_next_round,
}
use cpa_codex_quota_schedule.Epoch.Confirm.{decide_sweep, confirm, finalize_sweep}
use cpa_codex_quota_schedule.Epoch.Calls.{Call, step}
use cpa_codex_quota_schedule.Epoch.Fresh.{finalize_sweep-active, finalize_sweep-inactive}
use Targets.{Covered-add_targets, length-add_targets}
use Steps.{work, IsRunning, Progress}
use Calls.{sent, Within, step-Progress}

started_sweep-fresh :
    (s : Sweep) (why : Reason) (id trigger : Text) (now : Time)
    → s.active ≡ false
    → started_sweep s why id trigger now ≡ (fresh_sweep why id trigger now, true)
unfolding started_sweep
started_sweep-fresh s why id trigger now a = ground arith

begin_sweep-fresh :
    (w : World) (i : Dict Text) (why : Reason) (id trigger : Text) (now : Time)
    → w.epoch.sweep.active ≡ false
    → ((begin_sweep w i why id trigger now).0.epoch.sweep.active ≡ false)
      ⊎ ((begin_sweep w i why id trigger now).0.epoch.sweep ≡ (
          let m = (add_targets i true [] w.polls).0 in
          record (fresh_sweep why id trigger now) { targets = m; required = quorum (length m) }))
unfolding begin_sweep fresh_sweep revise
begin_sweep-fresh w i why id trigger now a =
    ground (arith, started_sweep-fresh w.epoch.sweep why id trigger now a)

fresh-IsRunning :
    (i : Dict Text) (id trigger : Text) (now : Time) (polls : Dict Poll) (q : ℕ)
    → now ≢ 0
    → IsRunning now
        (now + sweep_window)
        i
        (length i)
        (record (fresh_sweep provider_reset id trigger now) {
          targets = (add_targets i true [] polls).0;
          required = q;
        })
unfolding fresh_sweep
fresh-IsRunning i id trigger now polls q z = record {
  resets = refl;
  number = omega (arith, length-add_targets i true [] polls);
  covered = Covered-add_targets i true [] polls;
  anchored = z;
  opened = inl (omega arith);
  limited = refl;
}

fresh-work :
    (i : Dict Text) (id trigger : Text) (now : Time) (polls : Dict Poll) (q : ℕ)
    → work (length i) (record (fresh_sweep provider_reset id trigger now) {
      targets = (add_targets i true [] polls).0;
      required = q;
    })
      ≤ 4 * length i
unfolding fresh_sweep
fresh-work i id trigger now polls q =
    let m = (add_targets i true [] polls).0 in
    omega (arith, length-add_targets i true [] polls, count_where-le_length (is_due now) m)

settle_sweep-late :
    (w : World) (t : Transition) (now : Time)
    → w.epoch.sweep.deadline ≤ now
    → (settle_sweep w t now).epoch.sweep.active ≡ false
unfolding settle_sweep close_sweep schedule_next_round
settle_sweep-late w t now d = ground arith

module _ (decimal : ℕ → Text) where
  -- The calls up to the end of the sweep, and how many probes they send.
  unfoldable pub run_sweep : World → List Call → World × ℕ
  run_sweep w [] = (w, 0)
  run_sweep w (c ∷ calls) =
      let (v, k) = run_sweep (step decimal w c).0 calls in
      if w.epoch.sweep.active then (v, sent w c + k) else (w, 0)

  run_sweep-inactive :
      (w : World) (calls : List Call) → w.epoch.sweep.active ≡ false → run_sweep w calls ≡ (w, 0)
  unfolding run_sweep
  run_sweep-inactive w [] a = refl
  run_sweep-inactive w (c ∷ calls) a = ground arith

  run_sweep-active :
      (w : World) (c : Call) (calls : List Call)
      → w.epoch.sweep.active ≡ true
      → run_sweep w (c ∷ calls) ≡ (
        (run_sweep (step decimal w c).0 calls).0,
        sent w c + (run_sweep (step decimal w c).0 calls).1,
      )
  unfolding run_sweep
  run_sweep-active w c calls a = ground arith

  -- The sweep has ended, or it ends at its deadline.
  abbrev Closes : Time → Sweep → Type 0
  Closes deadline s = s.active ≡ true → s.deadline ≡ deadline

  run_sweep-work :
      (start deadline : Time) (i : Dict Text) (n : ℕ) (w : World) (calls : List Call)
      → All (Within start i) calls
      → IsRunning start deadline i n w.epoch.sweep
      → ((run_sweep w calls).1 ≤ work n w.epoch.sweep)
        × Closes deadline (run_sweep w calls).0.epoch.sweep
  run_sweep-work start deadline i n w [] h r = unfold run_sweep in (omega arith, λ a. r.limited)
  run_sweep-work start deadline i n w (c ∷ calls) (h, hs) r =
      elim (Bool-cases w.epoch.sweep.active) [
        | inr b ↦ rw (run_sweep-inactive w (c ∷ calls) b) (omega arith, λ a. r.limited)
        | inl b ↦
            rw (run_sweep-active w c calls b)
              (elim (step-Progress start deadline i n decimal w c h b r) [
                | inl (q, k) ↦
                    rw (run_sweep-inactive (step decimal w c).0 calls q)
                      (omega (arith, k), λ a. absurd (ground (arith, q, a)))
                | inr (t, l) ↦
                    let m = run_sweep-work start deadline i n (step decimal w c).0 calls hs t in
                    (omega (arith, l, m.0), m.1)
              ])
      ]

  decide_sweep-deadline :
      (w : World) (now : Time)
      → (decide_sweep decimal w now).0.epoch.sweep.deadline ≡ w.epoch.sweep.deadline
  unfolding decide_sweep confirm
  decide_sweep-deadline w now = ground arith

  finalize_sweep-late :
      (w : World) (now : Time)
      → (w.epoch.sweep.active ≡ true → w.epoch.sweep.deadline ≤ now)
      → (finalize_sweep decimal w now).0.epoch.sweep.active ≡ false
  finalize_sweep-late w now d = elim (Bool-cases w.epoch.sweep.active) [
    | inr b ↦ rw (finalize_sweep-inactive decimal w now b) b
    | inl b ↦
        let r = decide_sweep decimal w now in
        rw (finalize_sweep-active decimal w now b)
          (settle_sweep-late r.0 r.1 now (rw (decide_sweep-deadline w now) (d b)))
  ]

  begun-work :
      (w v : World) (i : Dict Text) (id trigger : Text) (begun : Time) (calls : List Call)
      → w.epoch.sweep.active ≡ false
      → begun ≢ 0
      → All (Within begun i) calls
      → (begin_sweep w i provider_reset id trigger begun).0 ≡ v
      → ((run_sweep v calls).1 ≤ 4 * length i)
        × Closes (begun + sweep_window) (run_sweep v calls).0.epoch.sweep
  begun-work w v i id trigger begun calls a z h e =
      elim (begin_sweep-fresh w i provider_reset id trigger begun a) [
        | inl b ↦
            rw (run_sweep-inactive v calls (rw e at b))
              (omega arith, λ y. absurd (ground (arith, b, e, y)))
        | inr f ↦
            let q = quorum (length (add_targets i true [] w.polls).0) in
            let m = (add_targets i true [] w.polls).0 in
            let g : v.epoch.sweep ≡ record (fresh_sweep provider_reset id trigger begun) {
              targets = m;
              required = q;
            } =
              rw e at f in
            let r =
              run_sweep-work begun (begun + sweep_window) i (length i) v calls h
                (rw g (fresh-IsRunning i id trigger begun w.polls q z)) in
            let k = fresh-work i id trigger begun w.polls q in
            (omega (arith, r.0, ap (work (length i)) g, k), r.1)
      ]

  -- A sweep for a reset that begins when none is active, in an inventory of n accounts, sends at most
  -- 4 n probes before it ends, as long as the inventory stays the same, no probe is earlier than its
  -- begin and no sweep begins from response headers; and the first time it is finalized at least ten
  -- minutes after its begin, it ends, if it has not before.
  pub begin_sweep-terminates :
      (w : World) (i : Dict Text) (id trigger : Text) (begun late : Time) (calls : List Call)
      → w.epoch.sweep.active ≡ false
      → begun ≢ 0
      → All (Within begun i) calls
      → begun + sweep_window ≤ late
      → ((run_sweep (begin_sweep w i provider_reset id trigger begun).0 calls).1 ≤ 4 * length i)
        × ((finalize_sweep decimal
              (run_sweep (begin_sweep w i provider_reset id trigger begun).0 calls).0
              late).0.epoch.sweep.active
            ≡ false)
  begin_sweep-terminates w i id trigger begun late calls a z h l =
      let v = (begin_sweep w i provider_reset id trigger begun).0 in
      let r = begun-work w v i id trigger begun calls a z h refl in
      (r.0, finalize_sweep-late (run_sweep v calls).0 late (λ y. omega (arith, r.1 y)))
