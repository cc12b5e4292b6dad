-- ===== src/Reconcile/Proven.antt =====
-- ban_reconcile.go: what a proof of a new quota cycle and a confirmation of it say about instants.
use mathlib.Core.Path.{subst}
use mathlib.Core.Logic.{if_pos, if_neg}
use cpa_codex_quota_schedule.Common.{
  ◌+◌, ◌≤◌, ◌<◌, true, false, ◌||◌, List, [], ◌∷◌, ◌++◌, Option, none, some, ◌≡◌, ◌⊎◌, inl, inr,
  refl, ap, arith, if◌then◌else◌, Text, same, text_discrete, Dict, lookup, insert, delete, Time,
  Duration, is_zero, before, after, All, Bool-cases, Option-cases,
}
use cpa_codex_quota_schedule.Quota.{QuotaWindow, QuotaSnapshot, normalize_window_class}
use cpa_codex_quota_schedule.Ban.Entry.{BanEntry}
use cpa_codex_quota_schedule.Reconcile.Evidence.{
  Proof, or_quarter, observed_since, anchor_verdict, is_shorter, shorter_classes, replaced_by,
  or_replaced, proves_replacement, proves_new_cycle, effective_ban_window_class,
}
use cpa_codex_quota_schedule.Reconcile.Confirmations.{
  Confirmation, or_empty, is_obsolete, advance_confirmation,
}

-- Observed after the quarantine began and by now.
abbrev pub IsSince : Time → Time → Time → Type 0
IsSince banned_at now at = (banned_at < at) × (at ≤ now)

anchor_verdict-IsSince :
    (class : Text) (e : BanEntry) (now : Time) (stale : Duration) (ws : List QuotaWindow)
    (reason : Text) (at : Time)
    → anchor_verdict class e now stale ws ≡ some (some (reason, at))
    → IsSince e.banned_at now at
unfolding anchor_verdict observed_since
anchor_verdict-IsSince class e now stale [] reason at p = absurd (cc)
anchor_verdict-IsSince class e now stale (w ∷ ws) reason at p =
    elim (Bool-cases (same (normalize_window_class w.class) class)) [
      | inl y ↦ ground arith
      | inr n ↦ anchor_verdict-IsSince class e now stale ws reason at (ground arith)
    ]

shorter_classes-IsSince :
    (class : Text) (banned_at now : Time) (stale : Duration) (ws : List QuotaWindow)
    (classes out : List Text) (at found : Time)
    → (at ≡ 0) ⊎ IsSince banned_at now at
    → shorter_classes class banned_at now stale ws classes at ≡ some (out, found)
    → (found ≡ 0) ⊎ IsSince banned_at now found
unfolding shorter_classes is_shorter observed_since
shorter_classes-IsSince class banned_at now stale [] classes out at found h p = ground arith
shorter_classes-IsSince class banned_at now stale (w ∷ ws) classes out at found h p =
    shorter_classes-IsSince class banned_at now stale ws
      (classes ++ normalize_window_class w.class ∷ []) out
      (if is_zero at || before w.observed_at at then w.observed_at else at) found (ground arith)
      (ground arith)

proves_replacement-IsSince :
    (s : QuotaSnapshot) (class : Text) (banned_at now : Time) (stale : Duration) (reason : Text)
    (at : Time)
    → proves_replacement s class banned_at now stale ≡ some (reason, at)
    → IsSince banned_at now at
unfolding proves_replacement
proves_replacement-IsSince s class banned_at now stale reason at p =
    found (shorter_classes class banned_at now (or_quarter stale) s.windows [] 0)
      (λ out t q.
        shorter_classes-IsSince class banned_at now (or_quarter stale) s.windows [] out 0 t
          (inl refl) q)
      (ground arith)
  where
    found :
        (o : Option (List Text × Time))
        → ((out : List Text) (t : Time) → o ≡ some (out, t) → (t ≡ 0) ⊎ IsSince banned_at now t)
        → replaced_by class o ≡ some (reason, at)
        → IsSince banned_at now at
    found none f q = absurd (cc)
    found (some ([], t)) f q = absurd (cc)
    found (some (c ∷ cs, t)) f q = ground (arith, f (c ∷ cs) t refl)

pub proves_new_cycle-IsSince :
    (s : QuotaSnapshot) (e : BanEntry) (now : Time) (stale : Duration) (reason : Text) (at : Time)
    → proves_new_cycle s e now stale ≡ some (reason, at)
    → IsSince e.banned_at now at
unfolding proves_new_cycle
proves_new_cycle-IsSince s e now stale reason at p =
    let class = effective_ban_window_class e in
    verdict (anchor_verdict class e now (or_quarter stale) s.windows)
      (anchor_verdict-IsSince class e now (or_quarter stale) s.windows reason at) (ground arith)
  where
    verdict :
        (o : Option (Option Proof))
        → (o ≡ some (some (reason, at)) → IsSince e.banned_at now at)
        → or_replaced o (proves_replacement s (effective_ban_window_class e) e.banned_at now stale)
          ≡ some (reason, at)
        → IsSince e.banned_at now at
    verdict none f q =
        proves_replacement-IsSince s (effective_ban_window_class e) e.banned_at now stale reason at
          q
    verdict (some o) f q = f (ap some q)

-- A confirmation counts observations after the quarantine, each later than the one before.
pub record IsProven (c : Confirmation) : Type 0 where
  pub since : c.banned_at < c.first_snapshot_at
  pub apart : c.first_snapshot_at + c.confirmations ≤ c.last_snapshot_at + 1
  pub counted : 1 ≤ c.confirmations

abbrev pub AllProven : Dict Confirmation → Type 0
AllProven m = All (λ e. IsProven e.1) m

pub AllProven-insert :
    (id : Text) (c : Confirmation) (m : Dict Confirmation)
    → IsProven c
    → AllProven m
    → AllProven (insert id c m)
unfolding insert
AllProven-insert id c [] h a = (h, tt)
AllProven-insert id c ((j, d) ∷ m) h a = elim (text_discrete j id) [
  | yes e ↦ rw (if_pos _ e) (h, a.1)
  | no n ↦ rw (if_neg _ n) (a.0, AllProven-insert id c m h a.1)
]

pub AllProven-delete : (id : Text) (m : Dict Confirmation) → AllProven m → AllProven (delete id m)
unfolding delete
AllProven-delete id [] a = tt
AllProven-delete id ((j, d) ∷ m) a = ground (arith, AllProven-delete id m a.1)

pub lookup-IsProven :
    (id : Text) (m : Dict Confirmation) (c : Confirmation)
    → AllProven m
    → lookup id m ≡ some c
    → IsProven c
unfolding lookup
lookup-IsProven id [] c a p = absurd (cc)
lookup-IsProven id ((j, d) ∷ m) c a p = elim (text_discrete j id) [
  | yes e ↦ let q : d ≡ c = ground arith in subst IsProven q a.0
  | no n ↦ lookup-IsProven id m c a.1 (ground arith)
]

-- Of the confirmation in hand after an observation: it is one of the quarantine, counts observations
-- of it up to now, and the map keeps its invariant.
pub record IsCounted (c : Confirmation) (e : BanEntry) (now : Time) : Type 0 where
  pub proven : IsProven c
  pub of_ban : c.banned_at ≡ e.banned_at
  pub of_reset : c.ban_reset_at ≡ e.reset_at
  pub past : c.last_snapshot_at ≤ now

pub obsolete-none :
    (e : BanEntry) (reason : Text) (now : Time) (stale : Duration)
    → is_obsolete (or_empty none) e reason now stale ≡ true
unfolding is_obsolete
obsolete-none e reason now stale = ground arith

-- What stays of a confirmation that is not obsolete.
kept-IsCounted :
    (c : Confirmation) (e : BanEntry) (reason : Text) (now : Time) (stale : Duration)
    → is_obsolete c e reason now stale ≡ false
    → IsProven c
    → IsCounted c e now
unfolding is_obsolete
kept-IsCounted c e reason now stale o h = record {
  proven = h;
  of_ban = ground arith;
  of_reset = ground arith;
  past = ground arith;
}

next-IsCounted :
    (c : Confirmation) (e : BanEntry) (at now : Time)
    → after at c.last_snapshot_at ≡ true
    → at ≤ now
    → IsCounted c e now
    → IsCounted (record c { last_snapshot_at = at; confirmations = c.confirmations + 1 }) e now
next-IsCounted c e at now l n k =
    let p = k.proven in
    record {
      proven = record {
        since = p.since;
        apart = ground (arith, p.apart);
        counted = ground (arith, p.counted);
      };
      of_ban = k.of_ban;
      of_reset = k.of_reset;
      past = n;
    }

advance_kept :
    (m : Dict Confirmation) (id : Text) (e : BanEntry) (reason : Text) (at now : Time)
    (stale : Duration) (c : Confirmation)
    → lookup id m ≡ some c
    → is_obsolete c e reason now (or_quarter stale) ≡ false
    → AllProven m
    → at ≤ now
    → AllProven (advance_confirmation m id e (reason, at) now stale).0
      × IsCounted (advance_confirmation m id e (reason, at) now stale).1 e now
unfolding advance_confirmation
advance_kept m id e reason at now stale c l o a n =
    let k = kept-IsCounted c e reason now (or_quarter stale) o (lookup-IsProven id m c a l) in
    elim (Bool-cases (after at c.last_snapshot_at)) [
      | inl y ↦
          let q = next-IsCounted c e at now y n k in
          rw (l, o, y) (AllProven-insert id _ m q.proven a, q)
      | inr y ↦ rw (l, o, y) (a, k)
    ]

pub advance-IsCounted :
    (m : Dict Confirmation) (id : Text) (e : BanEntry) (reason : Text) (at now : Time)
    (stale : Duration)
    → AllProven m
    → IsSince e.banned_at now at
    → AllProven (advance_confirmation m id e (reason, at) now stale).0
      × IsCounted (advance_confirmation m id e (reason, at) now stale).1 e now
unfolding advance_confirmation
advance-IsCounted m id e reason at now stale a h =
    elim (Bool-cases (is_obsolete (or_empty (lookup id m)) e reason now (or_quarter stale))) [
      | inl y ↦ rw y (
        AllProven-insert id _ m first a,
        record { proven = first; of_ban = refl; of_reset = refl; past = h.1 },
      )
      | inr o ↦ elim (Option-cases (lookup id m)) [
        | inl n ↦ absurd (ground (arith, n, obsolete-none e reason now (or_quarter stale)))
        | inr (c, l) ↦ advance_kept m id e reason at now stale c l (ground arith) a h.1
      ]
    ]
  where
    first : IsProven (record {
      auth_id = id;
      banned_at = e.banned_at;
      ban_reset_at = e.reset_at;
      first_snapshot_at = at;
      last_snapshot_at = at;
      confirmations = 1;
      reason = reason;
    })
    first = record { since = h.0; apart = omega arith; counted = omega arith }
