-- ===== src/Generation/Refined.antt =====
-- generation_owner.go: the operations of the instances as steps of the register.
use cpa_codex_quota_schedule.Common.{
  ◌+◌, ◌-◌, ◌^◌, ◌==◌, ◌&&◌, ◌<◌, Bool, true, false, ◌||◌, not, List, [], ◌∷◌, some, ◌≡◌, sym, inl,
  inr, arith, Time, Bool-cases,
}
use mathlib.Core.Path.{subst}
use cpa_codex_quota_schedule.Generation.Journal.{GenerationRecord, Journal, Io, leave, update}
use cpa_codex_quota_schedule.Generation.Owner.{
  Ownership, reserving, last_ticket, claiming, is_overtaken, is_owner, releasing, committing,
  reserve, claim, owner_active, can_refresh, with_owner_commit, release,
}
use cpa_codex_quota_schedule.Generation.Runs.{
  Call, reserves, claims, verifies, refreshes, commits, releases, step, run,
}
use cpa_codex_quota_schedule.Generation.Register.{
  Register, Step, stays, takes, grants, frees, Steps, here, next, view, Shows, Steady, Moves,
  update-Moves,
}

reserving-Steady : (now : Time) (r : GenerationRecord) → Steady r (reserving now r)
unfolding reserving last_ticket
reserving-Steady now r = elim (Bool-cases (last_ticket r == 2 ^ 64 - 1)) [
  | inl e ↦ rw (e, reserving) tt
  | inr e ↦
      rw (e, reserving) (ground arith, takes (last_ticket r + 1) (ground arith) (ground arith))
]

overtaken-granted :
    (o : Ownership) (r : GenerationRecord)
    → is_overtaken o r ≡ false
    → r.active_generation < o.ticket
unfolding is_overtaken
overtaken-granted o r e = ground arith

owner-active : (o : Ownership) (r : GenerationRecord) → is_owner o r ≡ true → r.active ≡ true
unfolding is_owner
owner-active o r e = ground arith

claiming-Steady : (o : Ownership) (now : Time) (r : GenerationRecord) → Steady r (claiming o now r)
unfolding claiming
claiming-Steady o now r = elim (Bool-cases (is_overtaken o r)) [
  | inl e ↦ rw (e, claiming) tt
  | inr e ↦ elim (Bool-cases (r.highest_reserved == o.ticket)) [
    | inr n ↦ rw (e, claiming, n) tt
    | inl q ↦
        let p : r.highest_reserved ≡ o.ticket = ground arith in
        let l = overtaken-granted o r e in
        rw (e, claiming, q)
          (
            omega (arith, l),
            subst
                (λ t.
                  Step (view r)
                    (record { last = r.highest_reserved; granted = t; holder = some o.owner }))
                p (grants o.owner (omega (arith, p, l))),
          )
  ]
]

releasing-Steady :
    (o : Ownership) (now : Time) (r : GenerationRecord) → Steady r (releasing o now r)
unfolding releasing
releasing-Steady o now r = elim (Bool-cases (is_owner o r)) [
  | inl e ↦
      rw (e, releasing) (omega arith, frees r.active_owner (ground (arith, owner-active o r e)))
  | inr e ↦ rw (e, releasing) tt
]

committing-Steady : (o : Ownership) (b : Bool) (r : GenerationRecord) → Steady r (committing o b r)
unfolding committing
committing-Steady o b r = elim (Bool-cases (is_owner o r && not b)) [
  | inl e ↦ rw (e, committing) tt
  | inr e ↦ rw (e, committing) tt
]

verify-Moves :
    (j : Journal) (io : Io) (o : Ownership) (s : Register)
    → Shows j s
    → Moves (owner_active j io o).0 s
unfolding owner_active
verify-Moves j io o s h = elim (Bool-cases (o.superseded || o.released || not o.claimed)) [
  | inl e ↦ rw (e, owner_active) (s, stays, h)
  | inr e ↦ rw (e, owner_active) (update-Moves j io (λ _. leave) s (λ r. tt) h)
]

step-Moves : (j : Journal) (c : Call) (s : Register) → Shows j s → Moves (step j c) s
unfolding step reserve claim can_refresh with_owner_commit release
step-Moves j (reserves io owner now) s h =
    update-Moves j io (reserving now) s (reserving-Steady now) h
step-Moves j (claims io o now) s h = elim (Bool-cases (o.superseded || o.released)) [
  | inl e ↦ rw (e, step, claim) (s, stays, h)
  | inr e ↦ elim (Bool-cases o.claimed) [
    | inl k ↦
        let q : step j (claims io o now) ≡ (owner_active j io o).0 = ground arith in
        subst (λ x. Moves x s) (sym q) (verify-Moves j io o s h)
    | inr k ↦
        let q : step j (claims io o now) ≡ (update j io (claiming o now)).0 = ground arith in
        subst (λ x. Moves x s) (sym q)
          (update-Moves j io (claiming o now) s (claiming-Steady o now) h)
  ]
]
step-Moves j (verifies io o) s h = verify-Moves j io o s h
step-Moves j (refreshes io o) s h = elim (Bool-cases (o.superseded || o.released)) [
  | inl e ↦ rw (e, step, can_refresh) (s, stays, h)
  | inr e ↦ elim (Bool-cases o.claimed) [
    | inl k ↦
        let q : step j (refreshes io o) ≡ (owner_active j io o).0 = ground arith in
        subst (λ x. Moves x s) (sym q) (verify-Moves j io o s h)
    | inr k ↦ rw (e, step, can_refresh, k) (update-Moves j io (λ _. leave) s (λ r. tt) h)
  ]
]
step-Moves j (commits io o b) s h =
    elim (Bool-cases (o.superseded || o.released || not o.claimed)) [
      | inl e ↦ rw (e, step, with_owner_commit) (s, stays, h)
      | inr e ↦
          rw (e, step, with_owner_commit)
            (update-Moves j io (committing o b) s (committing-Steady o b) h)
    ]
step-Moves j (releases io o now) s h =
    elim (Bool-cases (o.superseded || o.released || not o.claimed)) [
      | inl e ↦ rw (e, step, release) (s, stays, h)
      | inr e ↦
          rw (e, step, release) (update-Moves j io (releasing o now) s (releasing-Steady o now) h)
    ]

run-Steps :
    (j : Journal) (cs : List Call) (s t : Register)
    → Steps s t
    → Shows j t
    → (u : Register) × Steps s u × Shows (run j cs) u
unfolding run
run-Steps j [] s t p h = (t, p, h)
run-Steps j (c ∷ cs) s t p h =
    let q = step-Moves j c t h in run-Steps (step j c) cs s q.0 (next p q.1) q.2

-- The journal implements the register. From a journal with a record that can be read, whatever the
-- instances call, the journal can be read again, and
-- its record stands for a register that is reached by steps of the specification: a ticket above all
-- tickets and granted generations, a grant to the last ticket if that is newer than the last grant,
-- and the end of the holder's ownership. Each update may be refused, have its compaction fail before
-- or after the journal is replaced, or have its append lost, cut or not confirmed.
pub run_refines :
    (j : Journal) (cs : List Call) (s : Register)
    → Shows j s
    → (t : Register) × Steps s t × Shows (run j cs) t
run_refines j cs s h = run-Steps j cs s s here h
