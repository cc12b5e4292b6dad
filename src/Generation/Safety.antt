-- ===== src/Generation/Safety.antt =====
-- generation_owner.go: which instances may reserve, claim and commit.
use cpa_codex_quota_schedule.Common.{
  ◌+◌, ◌<◌, Bool, true, false, List, [], ◌∷◌, ◌++◌, Option, none, some, ◌≡◌, refl, inl, inr, arith,
  Text, text, Time, Option-cases,
}
use cpa_codex_quota_schedule.Generation.Journal.{
  GenerationRecord, entry, Journal, validate, read, Io, leave, update,
}
use cpa_codex_quota_schedule.Generation.Owner.{
  Ownership, last_ticket, reserving, reserve, is_overtaken, claiming, is_owner, claim_result, claim,
  ClaimReport, verified, owner_active, commit_ran, mark_superseded,
}
use cpa_codex_quota_schedule.Generation.Fence.{NotBehind, Reads, append-ne}
use cpa_codex_quota_schedule.Generation.Results.{base, read-base, Reported, update-Reported}
use cpa_codex_quota_schedule.Generation.Runs.{Call, run, run-Reads}

commit_ran-is_owner :
    (j : Journal) (io : Io) (o : Ownership) (r : GenerationRecord) (c : Bool)
    → read j ≡ some (r, c)
    → commit_ran j io o ≡ true
    → is_owner o r ≡ true
unfolding commit_ran
commit_ran-is_owner j io o r c e h = ground arith

-- Two instances whose commits run on the same journal are one: they have one ticket and one owner.
pub commit_ran_exclusive :
    (j : Journal) (io io' : Io) (o o' : Ownership)
    → commit_ran j io o ≡ true
    → commit_ran j io' o' ≡ true
    → (o.ticket ≡ o'.ticket) × (o.owner ≡ o'.owner)
unfolding commit_ran is_owner
commit_ran_exclusive j io io' o o' h h' = elim (Option-cases (read j)) [
  | inl e ↦ absurd (ground arith)
  | inr ((r, c), e) ↦ ground arith
]

not-is_owner :
    (o : Ownership) (r : GenerationRecord) → o.ticket < r.active_generation → is_owner o r ≡ false
unfolding is_owner
not-is_owner o r h = ground arith

-- What a claim by an overtaken instance leaves as it was, and what it returns.
abbrev pub Retired : Ownership → Journal × Ownership × ClaimReport → Type 0
Retired o c = (c.1.claimed ≡ o.claimed) × (c.2.claimed_now ≡ false) × (c.2.is_active ≡ false)

claim_result-overtaken :
    (j : Journal) (o : Ownership) (now : Time) (r : GenerationRecord)
    (u : Option (GenerationRecord × GenerationRecord))
    → o.ticket < r.active_generation
    → ((s v : GenerationRecord) → u ≡ some (s, v) → s ≡ r)
    → Retired o (j, (claim_result o now u).0, (claim_result o now u).1)
unfolding claim_result mark_superseded is_overtaken
claim_result-overtaken j o now r none b f = ground arith
claim_result-overtaken j o now r (some (s, v)) b f = ground (arith, f s v refl)

verified-overtaken :
    (reason : Text) (o : Ownership) (r : GenerationRecord)
    (u : Option (GenerationRecord × GenerationRecord))
    → o.ticket < r.active_generation
    → ((s v : GenerationRecord) → u ≡ some (s, v) → s ≡ r)
    → ((verified reason o u).0.claimed ≡ o.claimed) × ((verified reason o u).1 ≡ false)
unfolding verified mark_superseded
verified-overtaken reason o r none b f = ground arith
verified-overtaken reason o r (some (s, v)) b f = ground (arith, f s v refl, not-is_owner o s)

owner_active-overtaken :
    (j : Journal) (io : Io) (o : Ownership) (r : GenerationRecord) (c : Bool)
    → read j ≡ some (r, c)
    → o.ticket < r.active_generation
    → ((owner_active j io o).1.claimed ≡ o.claimed) × ((owner_active j io o).2 ≡ false)
unfolding owner_active
owner_active-overtaken j io o r c e b = ground (
  arith,
  verified-overtaken (text "generation_owner_mismatch") o r (update j io (λ _. leave)).1 b
      (λ s v u. (update-Reported j io (λ _. leave) r s v c e u).0),
)

claim-overtaken :
    (j : Journal) (io : Io) (o : Ownership) (now : Time) (r : GenerationRecord) (c : Bool)
    → read j ≡ some (r, c)
    → o.ticket < r.active_generation
    → Retired o (claim j io o now)
unfolding claim
claim-overtaken j io o now r c e b = ground (
  arith,
  owner_active-overtaken j io o r c e b,
  claim_result-overtaken j o now r (update j io (claiming o now)).1 b
      (λ s v u. (update-Reported j io (claiming o now) r s v c e u).0),
)

-- From a journal that can be read and holds a record with a later generation granted than the
-- instance's ticket, after any calls of any instances: the instance runs no commit, and its next
-- claim returns that it is not claimed now and not active, and leaves its claimed mark as it was. Each
-- update may be refused, have its compaction fail before or after the journal is replaced, or have
-- its append lost, cut or not confirmed.
pub overtaken_fenced :
    (j : Journal) (r : GenerationRecord) (o : Ownership) (cs : List Call) (io : Io) (now : Time)
    → Reads j r
    → o.ticket < r.active_generation
    → let last = claim (run j cs) io o now in
      (commit_ran (run j cs) io o ≡ false)
      × (last.1.claimed ≡ o.claimed)
      × (last.2.claimed_now ≡ false)
      × (last.2.is_active ≡ false)
overtaken_fenced j r o cs io now h b =
    let k = run-Reads j cs r h in
    let c =
      claim-overtaken (run j cs) io o now k.latest k.is_cut k.reads (omega (arith, k.ahead)) in
    (
      ground (
        arith,
        k.ahead,
        not-is_owner o k.latest,
        commit_ran-is_owner (run j cs) io o k.latest k.is_cut k.reads,
      ),
      c.0,
      c.1,
      c.2,
    )

reserving-Reported :
    (now : Time) (r v : GenerationRecord) (b j : Journal)
    → Reported (reserving now r) r b j v
    → (v.highest_reserved ≡ last_ticket r + 1)
      × NotBehind r v
      × (validate v ≡ true)
      × (j ≡ b ++ entry v ∷ [])
      × (r.highest_reserved < v.highest_reserved)
      × (r.active_generation < v.highest_reserved)
unfolding reserving last_ticket
reserving-Reported now r v b j h = ground arith

reserve_lem :
    (j j₁ : Journal) (io : Io) (w : Text) (now : Time) (o : Ownership) (r : GenerationRecord)
    → Reads j r
    → reserve j io w now ≡ (j₁, some o)
    → (r.highest_reserved < o.ticket)
      × (r.active_generation < o.ticket)
      × ((v : GenerationRecord) × (v.highest_reserved ≡ o.ticket) × Reads j₁ v)
unfolding reserve
reserve_lem j j₁ io w now o r h e = elim (Option-cases (update j io (reserving now)).1) [
  | inl u ↦ absurd (ground arith)
  | inr ((s, v), u) ↦
      let q =
        reserving-Reported now h.latest v (base j h.latest h.is_cut io)
          (update j io (reserving now)).0
          (update-Reported j io (reserving now) h.latest s v h.is_cut h.reads u).1 in
      (
        ground (arith, q, h.ahead),
        ground (arith, q, h.ahead),
        (
          v,
          ground arith,
          record {
            latest = v;
            is_cut = false;
            reads = ground (arith, q, read-base j h.latest h.is_cut io v h.reads q.2 q.1);
            ahead = omega arith;
            is_used = ground (arith, q, append-ne (base j h.latest h.is_cut io) (entry v));
          },
        ),
      )
]

-- A reservation that succeeds takes a ticket above every ticket and every active generation that
-- the journal has known, and no later successful reservation takes the same.
pub reserve_increases :
    (j j₁ j₂ : Journal) (io io' : Io) (w w' : Text) (now now' : Time) (o o' : Ownership)
    (cs : List Call) (r : GenerationRecord)
    → Reads j r
    → reserve j io w now ≡ (j₁, some o)
    → reserve (run j₁ cs) io' w' now' ≡ (j₂, some o')
    → (r.highest_reserved < o.ticket) × (r.active_generation < o.ticket) × (o.ticket < o'.ticket)
reserve_increases j j₁ j₂ io io' w w' now now' o o' cs r h e e' =
    let a = reserve_lem j j₁ io w now o r h e in
    let (v, t, k) = a.2 in
    let b = reserve_lem (run j₁ cs) j₂ io' w' now' o' v (run-Reads j₁ cs v k) e' in
    (a.0, a.1, omega (arith, t, b.0))
