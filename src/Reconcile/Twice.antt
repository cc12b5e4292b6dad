-- ===== src/Reconcile/Twice.antt =====
-- ban_reconcile.go: the two observations that a confirmation of a new quota cycle stands for.
use cpa_codex_quota_schedule.Common.{
  ◌≤◌, ◌<◌, false, some, ltb, ◌≡◌, ◌⊎◌, inl, inr, arith, Text, Dict, lookup, Time, Duration, after,
  Bool-cases, Option-cases,
}
use cpa_codex_quota_schedule.Ban.Entry.{BanEntry}
use cpa_codex_quota_schedule.Reconcile.Evidence.{or_quarter}
use cpa_codex_quota_schedule.Reconcile.Confirmations.{
  Confirmation, or_empty, is_obsolete, advance_confirmation,
}
use cpa_codex_quota_schedule.Reconcile.Proven.{AllProven, IsProven, lookup-IsProven, obsolete-none}

-- An earlier confirmation of the same quarantine, for the same reason and not from the future. An
-- observation at the instant is later than all that it counts, or it counts two already.
pub record IsSecond (m : Dict Confirmation) (id : Text) (e : BanEntry) (reason : Text)
    (at now : Time) (c : Confirmation) : Type 0 where
  pub stored : lookup id m ≡ some c
  pub of_ban : c.banned_at ≡ e.banned_at
  pub of_reset : c.ban_reset_at ≡ e.reset_at
  pub for_reason : c.reason ≡ reason
  pub since : e.banned_at < c.first_snapshot_at
  pub ordered : c.first_snapshot_at ≤ c.last_snapshot_at
  pub past : c.last_snapshot_at ≤ now
  pub second :
      (c.last_snapshot_at < at)
      ⊎ ((2 ≤ c.confirmations) × (c.first_snapshot_at < c.last_snapshot_at))

second-IsSecond :
    (m : Dict Confirmation) (id : Text) (e : BanEntry) (reason : Text) (at now : Time)
    (stale : Duration) (c : Confirmation)
    → lookup id m ≡ some c
    → is_obsolete c e reason now stale ≡ false
    → IsProven c
    → (c.last_snapshot_at < at) ⊎ (2 ≤ c.confirmations)
    → IsSecond m id e reason at now c
unfolding is_obsolete
second-IsSecond m id e reason at now stale c l o h b = record {
  stored = l;
  of_ban = ground arith;
  of_reset = ground arith;
  for_reason = ground arith;
  since = ground (arith, h.since);
  ordered = omega (arith, h.apart, h.counted);
  past = ground arith;
  second = ground (arith, h.apart);
}

-- A confirmation that counts two observations after one more was one of the first before it.
pub advance-IsSecond :
    (m : Dict Confirmation) (id : Text) (e : BanEntry) (reason : Text) (at now : Time)
    (stale : Duration)
    → AllProven m
    → ltb (advance_confirmation m id e (reason, at) now stale).1.confirmations 2 ≡ false
    → (c : Confirmation) × IsSecond m id e reason at now c
unfolding advance_confirmation
advance-IsSecond m id e reason at now stale a h =
    elim (Bool-cases (is_obsolete (or_empty (lookup id m)) e reason now (or_quarter stale))) [
      | inl y ↦ absurd (ground arith)
      | inr o ↦ elim (Option-cases (lookup id m)) [
        | inl n ↦ absurd (ground (arith, n, obsolete-none e reason now (or_quarter stale)))
        | inr (c, l) ↦
            let p = lookup-IsProven id m c a l in
            let fresh : is_obsolete c e reason now (or_quarter stale) ≡ false = ground arith in
            elim (Bool-cases (after at c.last_snapshot_at)) [
              | inl y ↦ (
                c,
                second-IsSecond m id e reason at now (or_quarter stale) c l fresh p
                    (inl (ground arith)),
              )
              | inr y ↦ (
                c,
                second-IsSecond m id e reason at now (or_quarter stale) c l fresh p
                    (inr (ground arith)),
              )
            ]
      ]
    ]
