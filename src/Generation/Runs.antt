-- ===== src/Generation/Runs.antt =====
-- The operations of any number of instances on one ownership journal, in any order.
use cpa_codex_quota_schedule.Common.{Bool, List, [], ◌∷◌, arith, Text, Time}
use cpa_codex_quota_schedule.Generation.Journal.{
  GenerationRecord, Journal, Io, Verdict, leave, update,
}
use cpa_codex_quota_schedule.Generation.Owner.{
  Ownership, last_ticket, reserving, reserve, is_overtaken, claiming, claim, owner_active,
  can_refresh, committing, with_owner_commit, releasing, release,
}
use cpa_codex_quota_schedule.Generation.Fence.{NotBehind, Forward, Reads, update-Reads}

pub data Call : Type 0 where
  reserves : Io → Text → Time → Call
  claims : Io → Ownership → Time → Call
  verifies refreshes : Io → Ownership → Call
  commits : Io → Ownership → Bool → Call
  releases : Io → Ownership → Time → Call

unfoldable pub step : Journal → Call → Journal
step j (reserves io owner now) = (reserve j io owner now).0
step j (claims io o now) = (claim j io o now).0
step j (verifies io o) = (owner_active j io o).0
step j (refreshes io o) = (can_refresh j io o).0
step j (commits io o succeeds) = (with_owner_commit j io o succeeds).0
step j (releases io o now) = (release j io o now).0

unfoldable pub run : Journal → List Call → Journal
run j [] = j
run j (c ∷ cs) = run (step j c) cs

pub reserving-Forward : (now : Time) (r : GenerationRecord) → Forward r (reserving now r)
unfolding reserving last_ticket
reserving-Forward now r = ground arith

pub claiming-Forward :
    (o : Ownership) (now : Time) (r : GenerationRecord) → Forward r (claiming o now r)
unfolding claiming is_overtaken
claiming-Forward o now r = ground arith

pub releasing-Forward :
    (o : Ownership) (now : Time) (r : GenerationRecord) → Forward r (releasing o now r)
unfolding releasing
releasing-Forward o now r = ground arith

pub committing-Forward :
    (o : Ownership) (b : Bool) (r : GenerationRecord) → Forward r (committing o b r)
unfolding committing
committing-Forward o b r = ground arith

weaken : (j : Journal) (r r' : GenerationRecord) → NotBehind r r' → Reads j r' → Reads j r
weaken j r r' b h = record {
  latest = h.latest;
  is_cut = h.is_cut;
  reads = h.reads;
  ahead = omega (arith, h.ahead);
  is_used = h.is_used;
}

updated-Reads :
    (j : Journal) (io : Io) (f : GenerationRecord → Verdict) (r : GenerationRecord)
    → ((x : GenerationRecord) → Forward x (f x))
    → Reads j r
    → Reads (update j io f).0 r
updated-Reads j io f r w h =
    weaken _ r h.latest h.ahead
      (update-Reads j io f h.latest h.is_cut h.is_used h.reads (w h.latest))

verify-Reads :
    (j : Journal) (io : Io) (o : Ownership) (r : GenerationRecord)
    → Reads j r
    → Reads (owner_active j io o).0 r
unfolding owner_active
verify-Reads j io o r h = ground (arith, h, updated-Reads j io (λ _. leave) r (λ x. tt) h)

step-Reads : (j : Journal) (c : Call) (r : GenerationRecord) → Reads j r → Reads (step j c) r
unfolding step reserve claim can_refresh with_owner_commit release
step-Reads j (reserves io owner now) r h =
    updated-Reads j io (reserving now) r (reserving-Forward now) h
step-Reads j (claims io o now) r h = ground (
  arith,
  h,
  verify-Reads j io o r h,
  updated-Reads j io (claiming o now) r (claiming-Forward o now) h,
)
step-Reads j (verifies io o) r h = verify-Reads j io o r h
step-Reads j (refreshes io o) r h =
    ground (arith, h, verify-Reads j io o r h, updated-Reads j io (λ _. leave) r (λ x. tt) h)
step-Reads j (commits io o b) r h =
    ground (arith, h, updated-Reads j io (committing o b) r (committing-Forward o b) h)
step-Reads j (releases io o now) r h =
    ground (arith, h, updated-Reads j io (releasing o now) r (releasing-Forward o now) h)

pub run-Reads :
    (j : Journal) (cs : List Call) (r : GenerationRecord) → Reads j r → Reads (run j cs) r
unfolding run
run-Reads j [] r h = h
run-Reads j (c ∷ cs) r h = run-Reads (step j c) cs r (step-Reads j c r h)
