-- ===== src/Ban/Quarantine.antt =====
-- main.go: a quarantine entry under any sequence of calls on banState.
use cpa_codex_quota_schedule.Common.{
  Bool, true, false, List, [], ◌∷◌, Option, none, some, ◌≡◌, ◌≢◌, refl, ◌⊎◌, inl, inr, arith, Text,
  lookup, delete, IsMap, IsMap-insert, IsMap-delete, IsMap-revise, lookup-insert, lookup-delete,
  lookup-revise, trim_space, Time, Duration, All, Option-cases, Bool-cases, is_empty, if◌then◌else◌,
  ◌==◌, ◌*◌, minute, revised,
}
use cpa_codex_quota_schedule.Ban.Entry.{BanEntry, normalize_ban_entry}
use cpa_codex_quota_schedule.Ban.Store.{
  BanState, put, set, set_if_absent, record_429, set_cooldown, cooldown_over, Admission, denied,
  owned, bound, started, admit, admit_store, try_start_probe_owned,
}
use cpa_codex_quota_schedule.Ban.Completion.{
  ProbeOutcome, ignored, cleared, retried, probe_outcome, outcome_store, complete_probe,
  mark_probe_dispatched, complete_entry, complete_owned_probe_except, clear, is_still, remove_same,
}
use cpa_codex_quota_schedule.Ban.Calls.{
  Call, sets, sets_if_absent, records, starts, completes, marks, completes_owned, clears,
  clears_all, removes, step, run,
}

-- The calls that cannot re-enable the credential: all but a probe's success, an operator's or the
-- reconciliation's clear, and a removal of its cooldown.
abbrev pub NoRelease : Text → Call → Type 0
NoRelease id (completes k requested now success retry_after) =
    (success ≡ false) ⊎ (trim_space k ≢ id)
NoRelease id (completes_owned owner except success preserve now retry_after max_ban) =
    success ≡ false
NoRelease id (clears k) = trim_space k ≢ id
NoRelease id (removes k e) = k ≢ id
NoRelease id clears_all = ⊥
NoRelease id other = Unit

abbrev pub IsPresent : Option BanEntry → Type 0
IsPresent none = ⊥
IsPresent (some e) = Unit

pub record Banned (s : BanState) (id : Text) : Type 0 where
  pub present : IsPresent (lookup id s.bans)
  pub is_map : IsMap s.bans

module _ (id : Text) where
  put-Banned : (s : BanState) (k : Text) (e : BanEntry) → Banned s id → Banned (put s k e) id
  put-Banned s k e h = record {
    present = ground (arith, lookup-insert k id e s.bans, h.present);
    is_map = IsMap-insert k e s.bans h.is_map;
  }

  delete-Banned :
      (s : BanState) (k : Text)
      → k ≢ id
      → IsPresent (lookup id s.bans)
      → IsPresent (lookup id (delete k s.bans))
  delete-Banned s k n h = ground (arith, lookup-delete k id s.bans, h)

  set-Banned : (s : BanState) (k : Text) (e : BanEntry) → Banned s id → Banned (set s k e) id
  unfolding set
  set-Banned s k e h = ground (arith, put-Banned s (trim_space k) (normalize_ban_entry e) h)

  set_if_absent-Banned :
      (s : BanState) (k : Text) (e : BanEntry) → Banned s id → Banned (set_if_absent s k e) id
  unfolding set_if_absent
  set_if_absent-Banned s k e h =
      ground (arith, put-Banned s (trim_space k) (normalize_ban_entry e) h)

  set_cooldown-Banned :
      (s : BanState) (k : Text) (e : BanEntry) → Banned s id → Banned (set_cooldown s k e) id
  unfolding set_cooldown
  set_cooldown-Banned s k e h =
      put-Banned s (trim_space k) (cooldown_over (lookup (trim_space k) s.bans) e) h

  record_429-Banned :
      (s : BanState) (k : Text) (e : BanEntry) (requested : Time)
      → Banned s id
      → Banned (record_429 s k e requested) id
  unfolding record_429
  record_429-Banned s k e requested h = elim (Bool-cases (is_empty (trim_space k))) [
    | inl b ↦ rw (b, record_429) h
    | inr b ↦
        rw (b, record_429)
          (set_cooldown-Banned _ (trim_space k) _
            (record { present = h.present; is_map = h.is_map }))
  ]

  admit_store-Banned :
      (s : BanState) (k : Text) (x : Admission) → Banned s id → Banned (admit_store s k x).0 id
  admit_store-Banned s k denied h = h
  admit_store-Banned s k owned h = h
  admit_store-Banned s k (bound e) h = put-Banned s k e h
  admit_store-Banned s k (started e) h =
      let b = put-Banned s k e h in record { present = b.present; is_map = b.is_map }

  try_start-Banned :
      (s : BanState) (k owner : Text) (now : Time) (lease : Duration)
      → Banned s id
      → Banned (try_start_probe_owned s k owner now lease).0 id
  unfolding try_start_probe_owned
  try_start-Banned s k owner now lease h = elim (Option-cases (lookup (trim_space k) s.bans)) [
    | inl e ↦ rw (e, try_start_probe_owned) (ground (arith, h))
    | inr (v, e) ↦
        rw (e, try_start_probe_owned)
          (ground (
            arith,
            h,
            admit_store-Banned s (trim_space k)
                (admit v owner now (if lease == 0 then 15 * minute else lease)) h,
          ))
  ]

  outcome_store-Banned :
      (s : BanState) (k : Text) (x : ProbeOutcome)
      → (x ≡ cleared → k ≢ id)
      → Banned s id
      → Banned (outcome_store s k x).0 id
  outcome_store-Banned s k ignored n h = h
  outcome_store-Banned s k cleared n h = record {
    present = delete-Banned s k (n refl) h.present;
    is_map = IsMap-delete k s.bans h.is_map;
  }
  outcome_store-Banned s k (retried e) n h =
      let b = put-Banned s k e h in record { present = b.present; is_map = b.is_map }

  probe_outcome-fails :
      (e : BanEntry) (requested now : Time) (retry_after : Duration)
      → probe_outcome e requested now false retry_after ≢ cleared
  unfolding probe_outcome
  probe_outcome-fails e requested now retry_after h = ground arith

  complete_probe-Banned :
      (s : BanState) (k : Text) (requested now : Time) (success : Bool) (retry_after : Duration)
      → (success ≡ false) ⊎ (trim_space k ≢ id)
      → Banned s id
      → Banned (complete_probe s k requested now success retry_after).0 id
  unfolding complete_probe
  complete_probe-Banned s k requested now success retry_after n h =
      elim (Option-cases (lookup (trim_space k) s.bans)) [
        | inl e ↦ rw (e, complete_probe) (ground (arith, h))
        | inr (v, e) ↦
            rw (e, complete_probe)
              (ground (
                arith,
                h,
                outcome_store-Banned s (trim_space k)
                    (probe_outcome v requested now success
                      (if retry_after == 0 then 2 * minute else retry_after))
                    (releases v (if retry_after == 0 then 2 * minute else retry_after) n) h,
              ))
      ]
    where
      releases :
          (v : BanEntry) (d : Duration)
          → (success ≡ false) ⊎ (trim_space k ≢ id)
          → probe_outcome v requested now success d ≡ cleared
          → trim_space k ≢ id
      releases v d (inl f) c = absurd (probe_outcome-fails v requested now d (rw f at c))
      releases v d (inr n) c = n

  mark-Banned :
      (s : BanState) (k owner : Text) → Banned s id → Banned (mark_probe_dispatched s k owner) id
  unfolding mark_probe_dispatched
  mark-Banned s k owner h = elim (Option-cases (lookup k s.bans)) [
    | inl e ↦ rw (e, mark_probe_dispatched) h
    | inr (v, e) ↦
        rw (e, mark_probe_dispatched)
          (ground (arith, h, put-Banned s k (record v { probe_dispatched = true }) h))
  ]

  complete_entry-IsPresent :
      (owner except : Text) (preserve : Bool) (now : Time) (retry_after max_ban : Duration)
      (o : Option BanEntry)
      → IsPresent o
      → IsPresent
          (revised (complete_entry owner except false preserve now retry_after max_ban) id o)
  unfolding complete_entry
  complete_entry-IsPresent owner except preserve now retry_after max_ban none h = h
  complete_entry-IsPresent owner except preserve now retry_after max_ban (some e) h = ground arith

  complete_owned-Banned :
      (s : BanState) (owner except : Text) (preserve : Bool) (now : Time)
      (retry_after max_ban : Duration)
      → Banned s id
      → Banned
          (complete_owned_probe_except s owner except false preserve now retry_after max_ban).0
          id
  unfolding complete_owned_probe_except
  complete_owned-Banned s owner except preserve now retry_after max_ban h =
      let f = complete_entry owner except false preserve now retry_after max_ban in
      elim (Bool-cases (is_empty owner)) [
        | inl b ↦ rw (b, complete_owned_probe_except) h
        | inr b ↦
            rw (b, complete_owned_probe_except)
              (record {
                present = rw (lookup-revise f id s.bans h.is_map) (
                    complete_entry-IsPresent owner except preserve now retry_after max_ban
                      (lookup id s.bans) h.present);
                is_map = IsMap-revise f s.bans h.is_map;
              })
      ]

  remove_same-Banned :
      (s : BanState) (k : Text) (e : BanEntry)
      → k ≢ id
      → Banned s id
      → Banned (remove_same s k e) id
  unfolding remove_same
  remove_same-Banned s k e n h = elim (Bool-cases (is_still e (lookup k s.bans))) [
    | inr b ↦ rw (b, remove_same) h
    | inl b ↦
        rw (b, remove_same)
          (record {
            present = delete-Banned s k n h.present;
            is_map = IsMap-delete k s.bans h.is_map;
          })
  ]

  step-Banned : (s : BanState) (c : Call) → NoRelease id c → Banned s id → Banned (step s c) id
  unfolding step clear
  step-Banned s (sets k e) n h = set-Banned s k e h
  step-Banned s (sets_if_absent k e) n h = set_if_absent-Banned s k e h
  step-Banned s (records k e requested) n h = record_429-Banned s k e requested h
  step-Banned s (starts k owner now lease) n h = try_start-Banned s k owner now lease h
  step-Banned s (completes k requested now success retry_after) n h =
      complete_probe-Banned s k requested now success retry_after n h
  step-Banned s (marks k owner) n h = mark-Banned s k owner h
  step-Banned s (completes_owned owner except success preserve now retry_after max_ban) n h =
      rw n (complete_owned-Banned s owner except preserve now retry_after max_ban h)
  step-Banned s (clears k) n h = record {
    present = delete-Banned s (trim_space k) n h.present;
    is_map = IsMap-delete (trim_space k) s.bans h.is_map;
  }
  step-Banned s (removes k e) n h = remove_same-Banned s k e n h
  step-Banned s clears_all n h = absurd n

  -- A quarantined credential stays quarantined through any sequence of the methods of banState and
  -- of removals of cooldowns by other parts, in which no request completes an owned probe with
  -- success, no anonymous probe succeeds on the credential, it is not cleared (by an operator or by
  -- the reconciliation), all are not cleared, and its cooldown is not removed (when it has elapsed or
  -- a reset credit was redeemed).
  pub run-Banned :
      (s : BanState) (cs : List Call) → All (NoRelease id) cs → Banned s id → Banned (run s cs) id
  unfolding run
  run-Banned s [] n h = h
  run-Banned s (c ∷ cs) n h = run-Banned (step s c) cs n.1 (step-Banned s c n.0 h)
