-- ===== src/Continuity/Kept.antt =====
-- continuity.go: the calls between two of one request that leave its reservation as it is.
use cpa_codex_quota_schedule.Common.{
  ◌+◌, ◌≤◌, true, false, ◌||◌, List, [], ◌∷◌, Option, none, some, ltb, ◌≡◌, ◌≢◌, inl, inr, refl,
  ◌∙◌, arith, Text, is_empty, trim_space, byte_len, Dict, lookup, delete, revise, Time, Duration,
  second, All, Bool-cases, Option-cases, lookup-insert, lookup-delete,
}
use cpa_codex_quota_schedule.Continuity.Gate.{
  Scope, Reservation, Gate, complete, dispatch, recompute_next,
}
use cpa_codex_quota_schedule.Continuity.Pace.{
  lapsed, drop_lapsed, first_slot, book, pace_held, pace, note_usage, prune_usage, prune_cycles,
  prune_continuity,
}
use cpa_codex_quota_schedule.Continuity.Calls.{
  Call, paces, completes, dispatches, clears, sets_cycle, clears_scope, notes, prunes, step, run,
  prune_usage-same, prune_cycles-same,
}

-- Calls of other requests, before the reservation lapses for them, that do not change the scope.
abbrev pub Spares : Text → Reservation → Call → Type 0
Spares id r (paces k interval poll max_wait now) = (trim_space k ≢ id) × (now ≤ r.at + max_wait)
Spares id r (completes k now) = trim_space k ≢ id
Spares id r (dispatches k selected now) = trim_space k ≢ id
Spares id r (notes k index is_valid now) = Unit
Spares id r (prunes inventory) = Unit
Spares id r (clears now) = ⊥
Spares id r (sets_cycle scope now) = ⊥
Spares id r (clears_scope scope request now) = ⊥

-- The request has the reservation, which is not dispatched, and the gate is at the scope.
pub record Promised (g : Gate) (id : Text) (r : Reservation) (scope : Scope) : Type 0 where
  pub booked : lookup id g.reservations ≡ some r
  pub undispatched : r.dispatched ≡ false
  pub at_scope : g.current_scope ≡ scope

pub lookup-revise_kept :
    (f : Text → Reservation → Option Reservation) (id : Text) (r : Reservation)
    (m : Dict Reservation)
    → lookup id m ≡ some r
    → f id r ≡ some r
    → lookup id (revise f m) ≡ some r
unfolding lookup revise
lookup-revise_kept f id r [] e k = e
lookup-revise_kept f id r ((j, s) ∷ m) e k = ground (arith, lookup-revise_kept f id r m)

prune_usage-scope :
    (us : List (Text × List Time)) (inventory : Dict Text) (g : Gate)
    → (prune_usage us inventory g).current_scope ≡ g.current_scope
unfolding prune_usage
prune_usage-scope [] inventory g = refl
prune_usage-scope ((id, ts) ∷ us) inventory g = prune_usage-scope us inventory _ ∙ ground arith

prune_cycles-scope :
    (cs : Scope) (inventory : Dict Text) (g : Gate)
    → (prune_cycles cs inventory g).current_scope ≡ g.current_scope
unfolding prune_cycles
prune_cycles-scope [] inventory g = refl
prune_cycles-scope ((id, c) ∷ cs) inventory g = prune_cycles-scope cs inventory _ ∙ ground arith

module _ (id : Text) (r : Reservation) (scope : Scope) where
  drop_lapsed-Promised :
      (g : Gate) (max_wait : Duration) (now : Time)
      → now ≤ r.at + max_wait
      → Promised g id r scope
      → Promised (drop_lapsed g max_wait now) id r scope
  unfolding drop_lapsed
  drop_lapsed-Promised g max_wait now n h = record {
    booked =
        lookup-revise_kept (lapsed max_wait now) id r g.reservations h.booked
          (ground (arith, h.undispatched));
    undispatched = h.undispatched;
    at_scope = h.at_scope;
  }

  book-Promised :
      (g : Gate) (k : Text) (interval poll max_wait : Duration) (now : Time)
      → k ≢ id
      → Promised g id r scope
      → Promised (book g k interval poll max_wait now).0 id r scope
  unfolding book
  book-Promised g k interval poll max_wait now n h =
      let s : Reservation = record {
        at = first_slot g interval now;
        dispatched = false;
        scope = g.current_scope;
        interval = interval;
      } in
      record {
        booked = ground (arith, h.booked, lookup-insert k id s g.reservations);
        undispatched = h.undispatched;
        at_scope = ground (arith, h.at_scope);
      }

  delete-Promised :
      (g : Gate) (k : Text) (now : Time)
      → k ≢ id
      → Promised g id r scope
      → Promised
          (recompute_next (record g { reservations = delete k g.reservations }) now)
          id
          r
          scope
  unfolding recompute_next
  delete-Promised g k now n h = record {
    booked = ground (arith, h.booked, lookup-delete k id g.reservations);
    undispatched = h.undispatched;
    at_scope = h.at_scope;
  }

  pace_held-Promised :
      (g : Gate) (k : Text) (interval poll max_wait : Duration) (now : Time)
      (o : Option Reservation)
      → k ≢ id
      → Promised g id r scope
      → Promised (pace_held g k interval poll max_wait now o).0 id r scope
  unfolding pace_held
  pace_held-Promised g k interval poll max_wait now none n h =
      book-Promised g k interval poll max_wait now n h
  pace_held-Promised g k interval poll max_wait now (some s) n h = ground (
    arith,
    h,
    book-Promised (recompute_next (record g { reservations = delete k g.reservations }) now) k
        interval poll max_wait now n (delete-Promised g k now n h),
  )

  pace-Promised :
      (g : Gate) (raw : Text) (interval poll max_wait : Duration) (now : Time)
      → trim_space raw ≢ id
      → now ≤ r.at + max_wait
      → Promised g id r scope
      → Promised (pace g raw interval poll max_wait now).0 id r scope
  unfolding pace
  pace-Promised g raw interval poll max_wait now n l h =
      let k = trim_space raw in
      let d = drop_lapsed g max_wait now in
      elim (Bool-cases (is_empty k || ltb 512 (byte_len k) || ltb interval second)) [
        | inl b ↦ rw (b, pace) h
        | inr b ↦
            rw (b, pace)
              (pace_held-Promised d k interval poll max_wait now (lookup k d.reservations) n
                (drop_lapsed-Promised g max_wait now l h))
      ]

  dispatch-Promised :
      (g : Gate) (k selected : Text) (now : Time)
      → trim_space k ≢ id
      → Promised g id r scope
      → Promised (dispatch g k selected now) id r scope
  unfolding dispatch recompute_next
  dispatch-Promised g k selected now n h =
      elim (Option-cases (lookup (trim_space k) g.reservations)) [
        | inl e ↦ rw (e, dispatch) h
        | inr (s, e) ↦ elim (Bool-cases s.dispatched) [
          | inl d ↦ rw (e, dispatch, d) h
          | inr d ↦
              rw (e, dispatch, d)
                (record {
                  booked = ground (
                    arith,
                    h.booked,
                    lookup-insert (trim_space k) id (record s { dispatched = true }) g.reservations,
                  );
                  undispatched = h.undispatched;
                  at_scope = h.at_scope;
                })
        ]
      ]

  step-Promised :
      (g : Gate) (c : Call) → Spares id r c → Promised g id r scope → Promised (step g c) id r scope
  unfolding step complete note_usage prune_continuity
  step-Promised g (paces k interval poll max_wait now) n h =
      pace-Promised g k interval poll max_wait now n.0 n.1 h
  step-Promised g (completes k now) n h = delete-Promised g (trim_space k) now n h
  step-Promised g (dispatches k selected now) n h = dispatch-Promised g k selected now n h
  step-Promised g (clears now) n h = absurd n
  step-Promised g (sets_cycle s now) n h = absurd n
  step-Promised g (clears_scope s request now) n h = absurd n
  step-Promised g (notes k index is_valid now) n h = record {
    booked = ground (arith, h.booked);
    undispatched = h.undispatched;
    at_scope = ground (arith, h.at_scope);
  }
  step-Promised g (prunes inventory) n h = record {
    booked = ground (
      arith,
      h.booked,
      prune_usage-same g.usage inventory g,
      prune_cycles-same (prune_usage g.usage inventory g).cycles inventory
          (prune_usage g.usage inventory g),
    );
    undispatched = h.undispatched;
    at_scope =
        prune_cycles-scope (prune_usage g.usage inventory g).cycles inventory
          (prune_usage g.usage inventory g)
        ∙ prune_usage-scope g.usage inventory g
        ∙ h.at_scope;
  }

  pub run-Promised :
      (g : Gate) (cs : List Call)
      → All (Spares id r) cs
      → Promised g id r scope
      → Promised (run g cs) id r scope
  unfolding run
  run-Promised g [] n h = h
  run-Promised g (c ∷ cs) n h = run-Promised (step g c) cs n.1 (step-Promised g c n.0 h)
