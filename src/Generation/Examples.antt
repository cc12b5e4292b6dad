-- ===== src/Generation/Examples.antt =====
-- The theorems on the ownership journal at concrete instances.
use cpa_codex_quota_schedule.Generation.Register.{Register, Steps, Shows, view}
use cpa_codex_quota_schedule.Generation.Refined.{run_refines}
use cpa_codex_quota_schedule.Common.{
  ◌<◌, true, false, [], ◌∷◌, none, some, ◌≡◌, refl, arith, Text, text, trim_space, text_discrete,
  ℕ_discrete,
}
use cpa_codex_quota_schedule.Generation.Journal.{
  GenerationRecord, empty_record, entry, cut, Journal, validate, read, read_lines, written, torn,
  compacted, reaches, Io, update, decide, append_line,
}
use cpa_codex_quota_schedule.Generation.Owner.{
  Ownership, fresh, reserve, reserving, last_ticket, is_owner, claim, commit_ran,
}
use cpa_codex_quota_schedule.Generation.Fence.{Reads}
use cpa_codex_quota_schedule.Generation.Runs.{reserves, claims, verifies, commits, run}
use cpa_codex_quota_schedule.Generation.Safety.{
  commit_ran_exclusive, overtaken_fenced, reserve_increases,
}
use cpa_codex_quota_schedule.Generation.Unconfirmed.{
  unconfirmed, claim_unsynced_retires, reserve_after_cut_start,
}

abbrev sound : Io
sound = record { refuses = false; is_large = false; compaction = compacted; append = written }

abbrev alpha : Text
alpha = text "alpha"

-- Generation 2 is reserved, generation 1 active.
abbrev first_record : GenerationRecord
first_record = record empty_record {
  highest_reserved = 2;
  active_generation = 1;
  active_owner = alpha;
  active = true;
}

abbrev journal : Journal
journal = entry first_record ∷ []

abbrev old : Ownership
old = record (fresh alpha 1) { claimed = true }

abbrev next : Ownership
next = fresh (text "beta") 2

journal-read : read journal ≡ some (first_record, false)
unfolding read read_lines validate trim_space
journal-read = refl

journal-Reads : Reads journal first_record
journal-Reads = record {
  latest = first_record;
  is_cut = false;
  reads = journal-read;
  ahead = omega arith;
  is_used = λ e. cc;
}

commit_ran_exclusive_example : (old.ticket ≡ old.ticket) × (old.owner ≡ old.owner)
unfolding commit_ran reaches is_owner read read_lines validate trim_space text_discrete ℕ_discrete
commit_ran_exclusive_example = commit_ran_exclusive journal sound sound old old refl refl

-- Generation 2 has been claimed over the first.
abbrev second_record : GenerationRecord
second_record = record first_record { active_generation = 2; active_owner = text "beta" }

abbrev taken : Journal
taken = entry first_record ∷ entry second_record ∷ []

taken-Reads : Reads taken second_record
unfolding read read_lines validate trim_space
taken-Reads = record {
  latest = second_record;
  is_cut = false;
  reads = refl;
  ahead = omega arith;
  is_used = λ e. cc;
}

overtaken_fenced_example :
    let j = run taken (verifies sound old ∷ commits sound old true ∷ []) in
    let last = claim j sound old 9 in
    (commit_ran j sound old ≡ false)
    × (last.1.claimed ≡ true)
    × (last.2.claimed_now ≡ false)
    × (last.2.is_active ≡ false)
overtaken_fenced_example =
    overtaken_fenced taken second_record old (verifies sound old ∷ commits sound old true ∷ [])
      sound 9 taken-Reads (omega arith)

reserve_increases_example :
    (first_record.highest_reserved < 3) × (first_record.active_generation < 3) × (3 < 4)
unfolding reserve update decide append_line reserving last_ticket read read_lines validate
    trim_space run
reserve_increases_example =
    reserve_increases journal _ _ sound sound alpha (text "beta") 5 6 (fresh alpha 3)
      (fresh (text "beta") 4) [] first_record journal-Reads refl refl

claim_unsynced_retires_example :
    let first = claim journal unconfirmed next 5 in
    (first.1 ≡ next)
    × (first.2.is_error ≡ true)
    × ((claim first.0 sound next 6).1.superseded ≡ true)
    × ((claim first.0 sound next 6).1.claimed ≡ false)
unfolding trim_space reaches
claim_unsynced_retires_example =
    claim_unsynced_retires journal sound next first_record 5 6 journal-read refl refl refl refl refl
      (omega arith) (λ e. cc)

reserve_after_cut_start_example :
    reserve (reserve [] (record sound { append = torn }) alpha 5).0 sound alpha 6 ≡ (cut ∷ [], none)
reserve_after_cut_start_example =
    reserve_after_cut_start (record sound { append = torn }) sound alpha alpha 5 6 refl refl refl

run_refines_example :
    (t : Register) × Steps (view first_record) t
    × Shows (run journal (reserves sound (text "beta") 4 ∷ claims sound next 5 ∷ [])) t
run_refines_example =
    run_refines journal (reserves sound (text "beta") 4 ∷ claims sound next 5 ∷ [])
      (view first_record)
      (record {
        latest = first_record;
        is_cut = false;
        reads = journal-read;
        shown = refl;
        is_used = λ e. cc;
      })
