-- ===== src/Ban/Ownership/Runs.antt =====
-- main.go: an owned probe under each call on banState and under sequences of them.
use cpa_codex_quota_schedule.Common.{
  ◌*◌, Bool, true, false, List, [], ◌∷◌, some, ◌≡◌, ◌≢◌, ◌⊎◌, inl, inr, arith, Text, Dict, lookup,
  delete, IsMap-insert, IsMap-delete, IsMap-revise, lookup-insert, lookup-delete, lookup-revise,
  trim_space, Time, Duration, All, Option-cases, Bool-cases, is_empty, if◌then◌else◌, ◌==◌, minute,
}
use cpa_codex_quota_schedule.Ban.Entry.{BanEntry, normalize_ban_entry}
use cpa_codex_quota_schedule.Ban.Store.{
  BanState, put, set_if_absent, record_429, set_cooldown, cooldown_over, schedulable, Admission,
  denied, owned, bound, started, admit, admit_store, try_start_probe_owned, set,
}
use cpa_codex_quota_schedule.Ban.Completion.{
  ProbeOutcome, ignored, cleared, retried, probe_outcome, outcome_store, complete_probe,
  mark_probe_dispatched, complete_entry, complete_owned_probe_except, clear, is_still, remove_same,
}
use cpa_codex_quota_schedule.Ban.Calls.{
  Call, sets, sets_if_absent, records, starts, completes, marks, completes_owned, clears,
  clears_all, removes, step, run,
}
use cpa_codex_quota_schedule.Ban.Ownership.{
  Spares, OwnedBy, Probed, Writes, cooldown_over-OwnedBy, admit-OwnedBy, admit_denied, not-ready,
  is_still-OwnedBy, probe_outcome-OwnedBy, complete_entry-OwnedBy,
}

module _ (id owner : Text) (named : owner ≢ []) where
  put-Probed :
      (s : BanState) (k : Text) (e : BanEntry)
      → (k ≡ id → OwnedBy owner (lookup id s.bans) → OwnedBy owner (some e))
      → Probed s id owner
      → Probed (put s k e) id owner
  put-Probed s k e f h = record {
    owned_by = ground (arith, lookup-insert k id e s.bans, λ (p : k ≡ id). f p h.owned_by);
    is_map = IsMap-insert k e s.bans h.is_map;
  }

  delete-OwnedBy :
      (m : Dict BanEntry) (k : Text)
      → k ≢ id
      → OwnedBy owner (lookup id m)
      → OwnedBy owner (lookup id (delete k m))
  delete-OwnedBy m k n h = ground (arith, lookup-delete k id m, h)

  owned_at :
      (s : BanState) (k : Text) (v : BanEntry)
      → Probed s id owner
      → lookup k s.bans ≡ some v
      → k ≡ id
      → OwnedBy owner (some v)
  owned_at s k v h e p = ground (arith, h.owned_by)

  set-Probed :
      (s : BanState) (k : Text) (e : BanEntry)
      → trim_space k ≢ id
      → Probed s id owner
      → Probed (set s k e) id owner
  unfolding set
  set-Probed s k e n h =
      ground (arith, put-Probed s (trim_space k) (normalize_ban_entry e) (λ p v. absurd (n p)) h)

  set_if_absent-Probed :
      (s : BanState) (k : Text) (e : BanEntry)
      → Probed s id owner
      → Probed (set_if_absent s k e) id owner
  unfolding set_if_absent
  set_if_absent-Probed s k e h = elim (Option-cases (lookup (trim_space k) s.bans)) [
    | inr (v, q) ↦ rw (q, set_if_absent) (ground (arith, h))
    | inl q ↦
        rw (q, set_if_absent)
          (ground (
            arith,
            h,
            put-Probed s (trim_space k) (normalize_ban_entry e)
                (λ p v. absurd (ground (arith, h.owned_by))) h,
          ))
  ]

  set_cooldown-Probed :
      (s : BanState) (k : Text) (e : BanEntry)
      → Probed s id owner
      → Probed (set_cooldown s k e) id owner
  unfolding set_cooldown
  set_cooldown-Probed s k e h =
      put-Probed s (trim_space k) (cooldown_over (lookup (trim_space k) s.bans) e)
        (λ p v. cooldown_over-OwnedBy owner (lookup (trim_space k) s.bans) e named (rw p v)) h

  record_429-Probed :
      (s : BanState) (k : Text) (e : BanEntry) (requested : Time)
      → Probed s id owner
      → Probed (record_429 s k e requested) id owner
  unfolding record_429
  record_429-Probed s k e requested h = elim (Bool-cases (is_empty (trim_space k))) [
    | inl b ↦ rw (b, record_429) h
    | inr b ↦
        rw (b, record_429)
          (set_cooldown-Probed _ (trim_space k) _
            (record { owned_by = h.owned_by; is_map = h.is_map }))
  ]

  admit_store-Probed :
      (s : BanState) (k : Text) (x : Admission)
      → (k ≡ id → ¬ Writes x)
      → Probed s id owner
      → Probed (admit_store s k x).0 id owner
  admit_store-Probed s k denied n h = h
  admit_store-Probed s k owned n h = h
  admit_store-Probed s k (bound e) n h = put-Probed s k e (λ p v. absurd (n p tt)) h
  admit_store-Probed s k (started e) n h =
      let b = put-Probed s k e (λ p v. absurd (n p tt)) h in
      record { owned_by = b.owned_by; is_map = b.is_map }

  try_start-Probed :
      (s : BanState) (k other : Text) (now : Time) (lease : Duration)
      → Probed s id owner
      → Probed (try_start_probe_owned s k other now lease).0 id owner
  unfolding try_start_probe_owned
  try_start-Probed s k other now lease h =
      let d = if lease == 0 then 15 * minute else lease in
      elim (Option-cases (lookup (trim_space k) s.bans)) [
        | inl q ↦ rw (q, try_start_probe_owned) (ground (arith, h))
        | inr (v, q) ↦
            rw (q, try_start_probe_owned)
              (ground (
                arith,
                h,
                admit_store-Probed s (trim_space k) (admit v other now d)
                    (λ p.
                      admit-OwnedBy owner other v now d named (owned_at s (trim_space k) v h q p))
                    h,
              ))
      ]

  outcome_store-Probed :
      (s : BanState) (k : Text) (x : ProbeOutcome)
      → (k ≡ id → x ≡ ignored)
      → Probed s id owner
      → Probed (outcome_store s k x).0 id owner
  outcome_store-Probed s k ignored n h = h
  outcome_store-Probed s k cleared n h = record {
    owned_by = delete-OwnedBy s.bans k (λ p. cc (n p)) h.owned_by;
    is_map = IsMap-delete k s.bans h.is_map;
  }
  outcome_store-Probed s k (retried e) n h =
      let b = put-Probed s k e (λ p v. cc (n p)) h in
      record { owned_by = b.owned_by; is_map = b.is_map }

  complete_probe-Probed :
      (s : BanState) (k : Text) (requested now : Time) (success : Bool) (retry_after : Duration)
      → Probed s id owner
      → Probed (complete_probe s k requested now success retry_after).0 id owner
  unfolding complete_probe
  complete_probe-Probed s k requested now success retry_after h =
      let d = if retry_after == 0 then 2 * minute else retry_after in
      elim (Option-cases (lookup (trim_space k) s.bans)) [
        | inl q ↦ rw (q, complete_probe) (ground (arith, h))
        | inr (v, q) ↦
            rw (q, complete_probe)
              (ground (
                arith,
                h,
                outcome_store-Probed s (trim_space k) (probe_outcome v requested now success d)
                    (λ p.
                      probe_outcome-OwnedBy owner v requested now success d named
                        (owned_at s (trim_space k) v h q p))
                    h,
              ))
      ]

  mark-Probed :
      (s : BanState) (k other : Text)
      → Probed s id owner
      → Probed (mark_probe_dispatched s k other) id owner
  unfolding mark_probe_dispatched
  mark-Probed s k other h = elim (Option-cases (lookup k s.bans)) [
    | inl q ↦ rw (q, mark_probe_dispatched) h
    | inr (v, q) ↦
        rw (q, mark_probe_dispatched)
          (ground (
            arith,
            h,
            put-Probed s k (record v { probe_dispatched = true }) (λ p w. owned_at s k v h q p) h,
          ))
  ]

  complete_owned-Probed :
      (s : BanState) (o except : Text) (success preserve : Bool) (now : Time) (a b : Duration)
      → (o ≢ owner) ⊎ (except ≡ id)
      → Probed s id owner
      → Probed (complete_owned_probe_except s o except success preserve now a b).0 id owner
  unfolding complete_owned_probe_except
  complete_owned-Probed s o except success preserve now a b c h =
      let f = complete_entry o except success preserve now a b in
      elim (Option-cases (lookup id s.bans)) [
        | inl q ↦ absurd (ground (arith, h.owned_by))
        | inr (v, q) ↦ elim (Bool-cases (is_empty o)) [
          | inl e ↦ rw (e, complete_owned_probe_except) h
          | inr e ↦
              rw (e, complete_owned_probe_except)
                (record {
                  owned_by = ground (
                    arith,
                    lookup-revise f id s.bans h.is_map,
                    complete_entry-OwnedBy owner id o except success preserve now a b v c,
                    h.owned_by,
                  );
                  is_map = IsMap-revise f s.bans h.is_map;
                })
        ]
      ]

  remove_same-Probed :
      (s : BanState) (k : Text) (e : BanEntry)
      → Probed s id owner
      → Probed (remove_same s k e) id owner
  unfolding remove_same
  remove_same-Probed s k e h = elim (Bool-cases (is_still e (lookup k s.bans))) [
    | inr b ↦ rw (b, remove_same) h
    | inl b ↦
        let n : k ≢ id =
          λ p. cc (b, is_still-OwnedBy owner e (lookup k s.bans) named (rw p h.owned_by)) in
        rw (b, remove_same)
          (record {
            owned_by = delete-OwnedBy s.bans k n h.owned_by;
            is_map = IsMap-delete k s.bans h.is_map;
          })
  ]

  step-Probed :
      (s : BanState) (c : Call) → Spares id owner c → Probed s id owner → Probed (step s c) id owner
  unfolding step clear
  step-Probed s (sets k e) n h = set-Probed s k e n h
  step-Probed s (sets_if_absent k e) n h = set_if_absent-Probed s k e h
  step-Probed s (records k e requested) n h = record_429-Probed s k e requested h
  step-Probed s (starts k other now lease) n h = try_start-Probed s k other now lease h
  step-Probed s (completes k requested now success retry_after) n h =
      complete_probe-Probed s k requested now success retry_after h
  step-Probed s (marks k other) n h = mark-Probed s k other h
  step-Probed s (completes_owned o except success preserve now a b) n h =
      complete_owned-Probed s o except success preserve now a b n h
  step-Probed s (clears k) n h = record {
    owned_by = delete-OwnedBy s.bans (trim_space k) n h.owned_by;
    is_map = IsMap-delete (trim_space k) s.bans h.is_map;
  }
  step-Probed s (removes k e) n h = remove_same-Probed s k e h
  step-Probed s clears_all n h = absurd n

  pub run-Probed :
      (s : BanState) (cs : List Call)
      → All (Spares id owner) cs
      → Probed s id owner
      → Probed (run s cs) id owner
  unfolding run
  run-Probed s [] n h = h
  run-Probed s (c ∷ cs) n h = run-Probed (step s c) cs n.1 (step-Probed s c n.0 h)

  refused :
      (s : BanState) (other : Text) (now : Time) (lease : Duration)
      → trim_space id ≡ id
      → id ≢ []
      → other ≢ owner
      → Probed s id owner
      → (try_start_probe_owned s id other now lease ≡ (s, false, false))
        × (schedulable s id now ≡ false)
  unfolding try_start_probe_owned schedulable
  refused s other now lease t i n h =
      let d = if lease == 0 then 15 * minute else lease in
      elim (Option-cases (lookup id s.bans)) [
        | inl q ↦ absurd (ground (arith, h.owned_by))
        | inr (v, q) ↦ (
          ground (arith, admit_denied owner other v now d named n, h.owned_by),
          ground (arith, not-ready owner v now named, h.owned_by),
        )
      ]

  -- While a request owns the half-open probe of a credential, no other request is admitted to it
  -- and the credential is not offered to any selection, at any time, whatever calls came between:
  -- the lease's deadline, a 429 and an anonymous completion do not free it.
  pub try_start_exclusive :
      (s : BanState) (cs : List Call) (other : Text) (now : Time) (lease : Duration)
      → trim_space id ≡ id
      → id ≢ []
      → other ≢ owner
      → All (Spares id owner) cs
      → Probed s id owner
      → (try_start_probe_owned (run s cs) id other now lease ≡ (run s cs, false, false))
        × (schedulable (run s cs) id now ≡ false)
  try_start_exclusive s cs other now lease t i n c h =
      refused (run s cs) other now lease t i n (run-Probed s cs c h)
