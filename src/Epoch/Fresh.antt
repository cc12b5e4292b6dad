-- ===== src/Epoch/Fresh.antt =====
-- quota_epoch.go: the ids that a sweep gives to the epochs it confirms.
use cpa_codex_quota_schedule.Common.{
  ℕ, ◌+◌, ◌%◌, ◌^◌, true, false, [], ◌++◌, ◌≡◌, ◌≢◌, ◌⊎◌, inl, inr, refl, sym, ◌∙◌, ap, arith,
  Bool-cases, length, length-append, Text, text, text_discrete, same, Time,
}
use cpa_codex_quota_schedule.Epoch.State.{
  EpochState, Reason, World, is_reset, provider_reset, bootstrap,
}
use cpa_codex_quota_schedule.Epoch.Rounds.{
  sweep_counts, Transition, no_transition, settle_sweep, close_sweep, schedule_next_round,
}
use cpa_codex_quota_schedule.Epoch.Confirm.{
  adq_epoch_id, next_id, median_reset, has_quorum, is_first_epoch, confirm, decide_sweep,
  finalize_sweep,
}

-- What settling a sweep leaves of the epoch.
pub record IsSettled (w v : World) : Type 0 where
  pub id_kept : v.epoch.id ≡ w.epoch.id
  pub sequence_kept : v.epoch.sequence ≡ w.epoch.sequence
  pub accounts_kept : v.epoch.accounts ≡ w.epoch.accounts
  pub reason_kept : v.epoch.reason ≡ w.epoch.reason
  pub targets_kept : v.epoch.sweep.targets ≡ w.epoch.sweep.targets
  pub required_kept : v.epoch.sweep.required ≡ w.epoch.sweep.required
  pub sweep_reason_kept : v.epoch.sweep.reason ≡ w.epoch.sweep.reason
  pub epoch_id_kept : v.epoch.sweep.epoch_id ≡ w.epoch.sweep.epoch_id
  pub deadline_kept : v.epoch.sweep.deadline ≡ w.epoch.sweep.deadline

pub settle_sweep-IsSettled :
    (w : World) (t : Transition) (now : Time) → IsSettled w (settle_sweep w t now)
unfolding settle_sweep close_sweep schedule_next_round
settle_sweep-IsSettled w t now = ground arith

same-eq : (s t : Text) → same s t ≡ true → s ≡ t
same-eq s t b = elim (text_discrete s t) [ yes e ↦ e | no n ↦ absurd (ground arith) ]

append-longer : (s d : Text) → s ++ text "-" ++ d ≢ s
append-longer s d e = omega (
  arith,
  ap (λ (u : Text). length u) e,
  length-append s (text "-" ++ d),
  length-append (s ++ text "-") d,
  length-append s (text "-"),
  length-append (text "-") d,
)

-- A sweep goes on, or it names an epoch.
abbrev pub Finalized : World → World → Transition → Type 0
Finalized w v t =
    ((t.id ≡ [])
      × (v.epoch.id ≡ w.epoch.id)
      × (v.epoch.sequence ≡ w.epoch.sequence)
      × (v.epoch.reason ≡ w.epoch.reason))
    ⊎ ((t.id ≢ [])
        × (t.id ≢ w.epoch.id)
        × (v.epoch.id ≡ t.id)
        × (v.epoch.sequence ≡ (w.epoch.sequence + 1) % 2 ^ 64)
        × (v.epoch.sweep.epoch_id ≡ t.id))

module _ (decimal : ℕ → Text) where
  adq_epoch_id-named : (r f : Time) → adq_epoch_id decimal r f ≢ []
  unfolding adq_epoch_id
  adq_epoch_id-named r f = ground arith

  next_id-named : (e : EpochState) (r now : Time) → next_id decimal e r now ≢ []
  unfolding next_id
  next_id-named e r now = ground (arith, adq_epoch_id-named r now)

  next_id-differs : (e : EpochState) (r now : Time) → next_id decimal e r now ≢ e.id
  unfolding next_id
  next_id-differs e r now = elim (Bool-cases (same (adq_epoch_id decimal r now) e.id)) [
    | inl b ↦
        rw (b, next_id)
          (λ q.
            append-longer (adq_epoch_id decimal r now) (decimal ((e.sequence + 1) % 2 ^ 64))
              (q ∙ sym (same-eq (adq_epoch_id decimal r now) e.id b)))
    | inr b ↦ rw (b, next_id) (λ q. ground arith)
  ]

  confirm-Finalized :
      (w : World) (why : Reason) (now : Time)
      → Finalized w (confirm decimal w why now).0 (confirm decimal w why now).1
  unfolding confirm
  confirm-Finalized w why now =
      let r = median_reset w.quotas w.epoch.sweep.targets (is_reset why) in
      inr (next_id-named w.epoch r now, next_id-differs w.epoch r now, refl, refl, refl)

  pub confirm-named :
      (w : World) (why : Reason) (now : Time) → (confirm decimal w why now).1.id ≢ []
  unfolding confirm
  confirm-named w why now =
      next_id-named w.epoch (median_reset w.quotas w.epoch.sweep.targets (is_reset why)) now

  decide_sweep-Finalized :
      (w : World) (now : Time)
      → Finalized w (decide_sweep decimal w now).0 (decide_sweep decimal w now).1
  unfolding decide_sweep
  decide_sweep-Finalized w now =
      let c = sweep_counts w.epoch.sweep.started_at w.epoch.sweep.targets in
      elim (Bool-cases (has_quorum w.epoch.sweep c.1)) [
        | inl b ↦ rw (b, decide_sweep) (confirm-Finalized w provider_reset now)
        | inr b ↦ elim (Bool-cases (is_first_epoch w.epoch c.0 now)) [
          | inl d ↦ rw (b, d, decide_sweep) (confirm-Finalized w bootstrap now)
          | inr d ↦ ground arith
        ]
      ]

  settle_sweep-Finalized :
      (w v : World) (t : Transition) (now : Time)
      → Finalized w v t
      → Finalized w (settle_sweep v t now) t
  settle_sweep-Finalized w v t now h = ground (arith, settle_sweep-IsSettled v t now)

  pub finalize_sweep-active :
      (w : World) (now : Time)
      → w.epoch.sweep.active ≡ true
      → finalize_sweep decimal w now ≡ (
        settle_sweep (decide_sweep decimal w now).0 (decide_sweep decimal w now).1 now,
        (decide_sweep decimal w now).1,
      )
  unfolding finalize_sweep
  finalize_sweep-active w now b = ground arith

  pub finalize_sweep-inactive :
      (w : World) (now : Time)
      → w.epoch.sweep.active ≡ false
      → finalize_sweep decimal w now ≡ (w, no_transition)
  unfolding finalize_sweep
  finalize_sweep-inactive w now b = ground arith

  -- The finalization of a sweep either confirms no epoch, and then the epoch keeps its id, its
  -- sequence number and its reason, or names a new one: its id is not empty and not that of the last epoch, the epoch
  -- and the sweep take it, and the sequence number counts up, modulo 2 ^ 64.
  pub finalize_sweep_lem :
      (w : World) (now : Time)
      → Finalized w (finalize_sweep decimal w now).0 (finalize_sweep decimal w now).1
  finalize_sweep_lem w now = elim (Bool-cases w.epoch.sweep.active) [
    | inr b ↦ rw (finalize_sweep-inactive w now b) (inl (refl, refl, refl, refl))
    | inl b ↦
        let r = decide_sweep decimal w now in
        rw (finalize_sweep-active w now b)
          (settle_sweep-Finalized w r.0 r.1 now (decide_sweep-Finalized w now))
  ]
