-- ===== src/Reconcile/Cleared.antt =====
-- ban_reconcile.go: which quarantines a round of snapshots ends.
use cpa_codex_quota_schedule.Common.{
  ◌≤◌, ◌<◌, Bool, true, false, not, ◌||◌, List, [], ◌∷◌, Option, none, some, ltb, ◌≡◌, ◌⊎◌, inl,
  inr, refl, ap, arith, Text, Dict, Time, Duration, Bool-cases, Option-cases,
}
use cpa_codex_quota_schedule.Quota.{QuotaSnapshot}
use cpa_codex_quota_schedule.Ban.Entry.{BanEntry, is_quota, is_half_open}
use cpa_codex_quota_schedule.Ban.Store.{BanState, lookup_ban}
use cpa_codex_quota_schedule.Ban.Completion.{is_still, clear}
use cpa_codex_quota_schedule.Reconcile.Evidence.{Proof, or_quarter, proves_new_cycle}
use cpa_codex_quota_schedule.Reconcile.Confirmations.{
  Confirmation, State, advance_confirmation, drop_confirmation, is_candidate, recent_warmup_429,
  confirmed, clear_ban, with_proof, reconcile_one, reconcile_all, latest_snapshots, reconcile,
}
use cpa_codex_quota_schedule.Reconcile.Proven.{
  AllProven, AllProven-delete, advance-IsCounted, proves_new_cycle-IsSince,
}
use cpa_codex_quota_schedule.Reconcile.Twice.{IsSecond, advance-IsSecond}

-- The quarantine was a cooldown after a 429 of the quota. The snapshot proves a new cycle by an
-- observation after it began, and an earlier confirmation for the same reason makes that two
-- observations at different instants, both after it began. It still is the same, and it is removed.
pub record IsEnded (s : State) (meanwhile : BanState → BanState) (id : Text) (q : QuotaSnapshot)
    (now : Time) (stale : Duration) (t : State) : Type 0 where
  pub entry : BanEntry
  pub reason : Text
  pub at : Time
  pub earlier : Confirmation
  pub held : lookup_ban s.bans id ≡ some entry
  pub of_quota : is_quota entry.kind ≡ true
  pub is_cooldown : is_half_open entry.phase ≡ false
  pub proved : proves_new_cycle q entry now (or_quarter stale) ≡ some (reason, at)
  pub since : entry.banned_at < at
  pub past : at ≤ now
  pub second : IsSecond s.confirmations id entry reason at now earlier
  pub still : is_still entry (lookup_ban (meanwhile s.bans) id) ≡ true
  pub removed : t.bans ≡ clear (meanwhile s.bans) id

-- What the calls of a round leave of the state of one credential.
record IsSettled (s : State) (meanwhile : BanState → BanState) (id : Text) (q : QuotaSnapshot)
    (now : Time) (stale : Duration) (t : State) (b : Bool) : Type 0 where
  proven : AllProven t.confirmations
  ended : b ≡ true → IsEnded s meanwhile id q now stale t
  kept : b ≡ false → (t.bans ≡ s.bans) ⊎ (t.bans ≡ meanwhile s.bans)

dropped-IsSettled :
    (s : State) (meanwhile : BanState → BanState) (id : Text) (q : QuotaSnapshot) (now : Time)
    (stale : Duration)
    → AllProven s.confirmations
    → IsSettled s meanwhile id q now stale (drop_confirmation s id) false
unfolding drop_confirmation
dropped-IsSettled s meanwhile id q now stale a = record {
  proven = AllProven-delete id s.confirmations a;
  ended = λ p. absurd (cc);
  kept = λ p. inl refl;
}

-- The proof by the snapshot in hand, and the confirmation after it.
module _ (s : State) (meanwhile : BanState → BanState) (id : Text) (q : QuotaSnapshot)
    (e : BanEntry) (now : Time) (stale retry_after : Duration)
    (held : lookup_ban s.bans id ≡ some e) (of_quota : is_quota e.kind ≡ true)
    (is_cooldown : is_half_open e.phase ≡ false) (a : AllProven s.confirmations) where
  confirmed-IsSettled :
      (u : State) (c : Confirmation) (reason : Text) (at : Time)
      → u.bans ≡ meanwhile s.bans
      → AllProven u.confirmations
      → proves_new_cycle q e now (or_quarter stale) ≡ some (reason, at)
      → (ltb c.confirmations 2 ≡ false
          → (d : Confirmation) × IsSecond s.confirmations id e reason at now d)
      → IsSettled s meanwhile id q now stale
          (confirmed u id e c now retry_after).0
          (confirmed u id e c now retry_after).1
  unfolding confirmed clear_ban
  confirmed-IsSettled u c reason at b p o f =
      elim (Bool-cases (
        ltb c.confirmations 2
        || recent_warmup_429 u.warmups id now retry_after
        || not (is_still e (lookup_ban u.bans id)))) [
          | inl y ↦ rw y (record { proven = p; ended = λ p. absurd (cc); kept = λ p. inr b })
          | inr y ↦
              let (d, h) = f (ground arith) in
              let n = proves_new_cycle-IsSince q e now (or_quarter stale) reason at o in
              rw y (record {
                proven = AllProven-delete id u.confirmations p;
                ended = λ p. record {
                  entry = e;
                  reason = reason;
                  at = at;
                  earlier = d;
                  held = held;
                  of_quota = of_quota;
                  is_cooldown = is_cooldown;
                  proved = o;
                  since = n.0;
                  past = n.1;
                  second = h;
                  still = ground (arith, b);
                  removed = ap (λ x. clear x id) b;
                };
                kept = λ p. absurd (cc);
              })
        ]

  with_proof-IsSettled :
      (o : Option Proof)
      → proves_new_cycle q e now (or_quarter stale) ≡ o
      → IsSettled s meanwhile id q now stale
          (with_proof s meanwhile id e now stale retry_after o).0
          (with_proof s meanwhile id e now stale retry_after o).1
  with_proof-IsSettled none p = dropped-IsSettled s meanwhile id q now stale a
  with_proof-IsSettled (some (reason, at)) p =
      let n = proves_new_cycle-IsSince q e now (or_quarter stale) reason at p in
      let k = advance-IsCounted s.confirmations id e reason at now stale a n in
      confirmed-IsSettled _ (advance_confirmation s.confirmations id e (reason, at) now stale).1
        reason at refl k.0 p (advance-IsSecond s.confirmations id e reason at now stale a)

reconcile_one-IsSettled :
    (s : State) (meanwhile : BanState → BanState) (id : Text) (q : QuotaSnapshot) (now : Time)
    (stale retry_after : Duration)
    → AllProven s.confirmations
    → IsSettled s meanwhile id q now stale
        (reconcile_one s meanwhile id q now stale retry_after).0
        (reconcile_one s meanwhile id q now stale retry_after).1
unfolding reconcile_one
reconcile_one-IsSettled s meanwhile id q now stale retry_after a =
    elim (Option-cases (lookup_ban s.bans id)) [
      | inl n ↦ rw (n, reconcile_one) (dropped-IsSettled s meanwhile id q now stale a)
      | inr (e, l) ↦ elim (Bool-cases (is_candidate e q now (or_quarter stale))) [
        | inr n ↦ rw (l, reconcile_one, n) (dropped-IsSettled s meanwhile id q now stale a)
        | inl y ↦
            rw (l, reconcile_one, y)
              (with_proof-IsSettled s meanwhile id q e now stale retry_after l
                (candidate_quota e q now (or_quarter stale) y)
                (candidate_cooldown e q now (or_quarter stale) y) a
                (proves_new_cycle q e now (or_quarter stale)) refl)
      ]
    ]
  where
    candidate_quota :
        (e : BanEntry) (q : QuotaSnapshot) (now : Time) (stale : Duration)
        → is_candidate e q now stale ≡ true
        → is_quota e.kind ≡ true
    candidate_quota e q now stale y = unfold is_candidate in ground arith

    candidate_cooldown :
        (e : BanEntry) (q : QuotaSnapshot) (now : Time) (stale : Duration)
        → is_candidate e q now stale ≡ true
        → is_half_open e.phase ≡ false
    candidate_cooldown e q now stale y = unfold is_candidate in ground arith

reconcile_all-AllProven :
    (s : State) (meanwhile : BanState → BanState) (qs : Dict QuotaSnapshot) (now : Time)
    (stale retry_after : Duration)
    → AllProven s.confirmations
    → AllProven (reconcile_all s meanwhile qs now stale retry_after).0.confirmations
unfolding reconcile_all
reconcile_all-AllProven s meanwhile [] now stale retry_after a = a
reconcile_all-AllProven s meanwhile ((id, q) ∷ qs) now stale retry_after a =
    reconcile_all-AllProven (reconcile_one s meanwhile id q now stale retry_after).0 meanwhile qs
      now stale retry_after
      (reconcile_one-IsSettled s meanwhile id q now stale retry_after a).proven

-- A refresh of the quotas, after which other callers change the quarantine store.
pub record Round : Type 0 where
  pub meanwhile : BanState → BanState
  pub quotas : Dict QuotaSnapshot
  pub now : Time
  pub stale : Duration
  pub retry_after : Duration
  pub since : BanState → BanState

abbrev pub rounds : State → List Round → State
rounds s [] = s
rounds s (r ∷ rs) =
    let t = (reconcile s r.meanwhile r.quotas r.now r.stale r.retry_after).0 in
    rounds (record t { bans = r.since t.bans }) rs

-- From such confirmations, however often the quotas are refreshed and whatever other callers do to
-- the quarantine store: every confirmation counts observations after its quarantine began, each
-- later than the one before.
pub rounds-AllProven :
    (s : State) (rs : List Round)
    → AllProven s.confirmations
    → AllProven (rounds s rs).confirmations
unfolding reconcile
rounds-AllProven s [] a = a
rounds-AllProven s (r ∷ rs) a =
    let t = (reconcile s r.meanwhile r.quotas r.now r.stale r.retry_after).0 in
    rounds-AllProven (record t { bans = r.since t.bans }) rs
      (reconcile_all-AllProven s r.meanwhile (latest_snapshots r.quotas []) r.now r.stale
        r.retry_after a)

-- A snapshot that ends no quarantine leaves the store as others have it.
pub reconcile_one_kept :
    (s : State) (meanwhile : BanState → BanState) (id : Text) (q : QuotaSnapshot) (now : Time)
    (stale retry_after : Duration)
    → AllProven s.confirmations
    → (reconcile_one s meanwhile id q now stale retry_after).1 ≡ false
    → let t = (reconcile_one s meanwhile id q now stale retry_after).0 in
      (t.bans ≡ s.bans) ⊎ (t.bans ≡ meanwhile s.bans)
reconcile_one_kept s meanwhile id q now stale retry_after a p =
    (reconcile_one-IsSettled s meanwhile id q now stale retry_after a).kept p
