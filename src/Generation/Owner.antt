-- ===== src/Generation/Owner.antt =====
-- generation_owner.go: the ownership that one loaded instance holds in memory, and the operations
-- on it and on the shared journal. The instance's state path is not empty; an operation is one
-- step, since each change of the journal is made under its lock.
use cpa_codex_quota_schedule.Common.{
  ℕ, ◌+◌, ◌-◌, ◌^◌, Bool, true, false, not, ◌&&◌, ◌||◌, [], Option, none, some, ltb, leb, ◌==◌,
  if◌then◌else◌, Text, same, text, Time,
}
use cpa_codex_quota_schedule.Generation.Journal.{
  GenerationRecord, Journal, read, Io, Verdict, abort, leave, write, update, reaches,
}

pub record Ownership : Type 0 where
  pub owner : Text
  pub ticket : ℕ  -- uint64
  pub claimed : Bool
  pub claimed_at : Time
  pub released : Bool
  pub superseded : Bool
  pub observed_generation : ℕ
  pub supersede_reason : Text

abbrev pub fresh : Text → ℕ → Ownership
fresh owner ticket = record {
  owner = owner;
  ticket = ticket;
  claimed = false;
  claimed_at = 0;
  released = false;
  superseded = false;
  observed_generation = 0;
  supersede_reason = [];
}

unfoldable pub mark_superseded : Ownership → ℕ → Text → Ownership
mark_superseded o observed reason = if o.superseded then o else record o {
  superseded = true;
  observed_generation =
      if ltb o.observed_generation observed then observed else o.observed_generation;
  supersede_reason = reason;
}

unfoldable pub last_ticket : GenerationRecord → ℕ
last_ticket r =
    if ltb r.highest_reserved r.active_generation then r.active_generation else r.highest_reserved

unfoldable pub reserving : Time → GenerationRecord → Verdict
reserving now r =
    if last_ticket r == 2 ^ 64 - 1
    then abort
    else write (record r { highest_reserved = last_ticket r + 1; reserved_at = now })

abbrev pub reserved : Text → Option (GenerationRecord × GenerationRecord) → Option Ownership
reserved owner none = none
reserved owner (some (seen, r)) = some (fresh owner r.highest_reserved)

-- A new instance takes the next ticket. The ownership is none if the reservation failed.
unfoldable pub reserve : Journal → Io → Text → Time → Journal × Option Ownership
reserve j io owner now = let (j', r) = update j io (reserving now) in (j', reserved owner r)

-- May an unclaimed instance claim over this record?
unfoldable pub is_overtaken : Ownership → GenerationRecord → Bool
is_overtaken o r = ltb o.ticket r.highest_reserved || leb o.ticket r.active_generation

unfoldable pub claiming : Ownership → Time → GenerationRecord → Verdict
claiming o now r =
    if is_overtaken o r
    then leave
    else (if not (r.highest_reserved == o.ticket)
        then abort
        else write (record r {
          active_generation = o.ticket;
          active_owner = o.owner;
          active = true;
          claimed_at = now;
          released_at = 0;
        }))

unfoldable pub is_owner : Ownership → GenerationRecord → Bool
is_owner o r = r.active && r.active_generation == o.ticket && same r.active_owner o.owner

-- What a claim returns: was the ownership claimed now, is the instance active, did it fail?
pub record ClaimReport : Type 0 where
  pub claimed_now : Bool
  pub is_active : Bool
  pub is_error : Bool

abbrev pub unclaimed : ClaimReport
unclaimed = record { claimed_now = false; is_active = false; is_error = false }

-- An overtaken instance retires. The check of the record just written stands for itself.
unfoldable pub claim_result :
    Ownership → Time → Option (GenerationRecord × GenerationRecord) → Ownership × ClaimReport
claim_result o now none = (o, record unclaimed { is_error = true })
claim_result o now (some (seen, r)) =
    if is_overtaken o seen
    then (
      mark_superseded o seen.active_generation (text "newer_generation_claimed_first"),
      unclaimed,
    )
    else (if is_owner o r
        then (
          record o { claimed = true; claimed_at = now },
          record { claimed_now = true; is_active = true; is_error = false },
        )
        else (
          mark_superseded o r.active_generation (text "generation_claim_verification_failed"),
          unclaimed,
        ))

unfoldable pub verified :
    Text → Ownership → Option (GenerationRecord × GenerationRecord) → Ownership × Bool
verified reason o none = (o, false)
verified reason o (some (seen, r)) =
    if is_owner o seen then (o, true) else (mark_superseded o seen.active_generation reason, false)

-- The gate of background writers.
unfoldable pub owner_active : Journal → Io → Ownership → Journal × Ownership × Bool
owner_active j io o =
    if o.superseded || o.released || not o.claimed
    then (j, o, false)
    else (let (j', u) = update j io (λ _. leave) in
        let (o', is_active) = verified (text "generation_owner_mismatch") o u in
        (j', o', is_active))

-- An instance that has claimed before checks that it still is the owner.
unfoldable pub claim : Journal → Io → Ownership → Time → Journal × Ownership × ClaimReport
claim j io o now =
    if o.superseded || o.released
    then (j, o, unclaimed)
    else (if o.claimed
        then (let (j', o', is_active) = owner_active j io o in
            (j', o', record unclaimed { is_active = is_active }))
        else (let (j', r) = update j io (claiming o now) in
            let (o', report) = claim_result o now r in (j', o', report)))

-- May the instance refresh? Before its first claim only the newest reservation may.
unfoldable pub refreshable :
    Ownership → Option (GenerationRecord × GenerationRecord) → Ownership × Bool
refreshable o none = (o, false)
refreshable o (some (seen, r)) =
    if is_overtaken o seen
    then (
      mark_superseded o seen.active_generation (text "newer_generation_before_first_refresh"),
      false,
    )
    else (o, seen.highest_reserved == o.ticket)

unfoldable pub can_refresh : Journal → Io → Ownership → Journal × Ownership × Bool
can_refresh j io o =
    if o.superseded || o.released
    then (j, o, false)
    else (if o.claimed
        then owner_active j io o
        else (let (j', u) = update j io (λ _. leave) in
            let (o', may) = refreshable o u in (j', o', may)))

unfoldable pub committing : Ownership → Bool → GenerationRecord → Verdict
committing o succeeds r = if is_owner o r && not succeeds then abort else leave

-- Runs the commit under the lock if the instance still owns the record; `succeeds` is how the
-- commit turns out. Returns whether the commit was run, as the caller cannot tell a commit that
-- failed from an error of the journal.
unfoldable pub commit_ran : Journal → Io → Ownership → Bool
commit_ran j io o =
    not (o.superseded || o.released || not o.claimed)
    && elim (read j) [ none ↦ false | some (r, is_cut) ↦ reaches io is_cut && is_owner o r ]

unfoldable pub with_owner_commit : Journal → Io → Ownership → Bool → Journal × Ownership × Bool
with_owner_commit j io o succeeds =
    if o.superseded || o.released || not o.claimed
    then (j, o, false)
    else (let (j', u) = update j io (committing o succeeds) in
        let (o', is_done) = verified (text "generation_commit_owner_mismatch") o u in
        (j', o', is_done))

unfoldable pub releasing : Ownership → Time → GenerationRecord → Verdict
releasing o now r =
    if is_owner o r then write (record r { active = false; released_at = now }) else leave

unfoldable pub release_result : Ownership → Option (GenerationRecord × GenerationRecord) → Ownership
release_result o none = o
release_result o (some (seen, r)) =
    if is_owner o seen
    then record o { released = true }
    else mark_superseded o seen.active_generation (text "generation_release_owner_mismatch")

unfoldable pub release : Journal → Io → Ownership → Time → Journal × Ownership
release j io o now =
    if o.superseded || o.released || not o.claimed
    then (j, o)
    else (let (j', u) = update j io (releasing o now) in (j', release_result o u))
