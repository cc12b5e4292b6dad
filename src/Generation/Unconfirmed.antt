-- ===== src/Generation/Unconfirmed.antt =====
-- generation_owner.go: updates of the journal that the file system cuts or does not confirm.
use cpa_codex_quota_schedule.Common.{
  ◌<◌, true, false, [], ◌∷◌, ◌++◌, none, some, ◌≡◌, ◌≢◌, refl, arith, Text, Time, trim_space,
}
use cpa_codex_quota_schedule.Generation.Journal.{
  GenerationRecord, entry, Journal, validate, read, read_lines, cut, torn, unsynced, Io, reaches,
  compacted, append_line, decide, update,
}
use cpa_codex_quota_schedule.Generation.Owner.{
  Ownership, unclaimed, last_ticket, reserving, reserve, is_overtaken, claiming, claim_result,
  claim, mark_superseded,
}
use cpa_codex_quota_schedule.Generation.Fence.{read-append}
use cpa_codex_quota_schedule.Generation.Results.{base, update-eq}

abbrev pub unconfirmed : Io
unconfirmed = record {
  refuses = false;
  is_large = false;
  compaction = compacted;
  append = unsynced;
}

abbrev claimed_record : Ownership → Time → GenerationRecord → GenerationRecord
claimed_record o now r = record r {
  version = 1;
  active_generation = o.ticket;
  active_owner = o.owner;
  active = true;
  claimed_at = now;
  released_at = 0;
}

claimed_record-valid :
    (o : Ownership) (now : Time) (r : GenerationRecord)
    → r.highest_reserved ≡ o.ticket
    → r.active_generation < o.ticket
    → trim_space o.owner ≢ []
    → validate (claimed_record o now r) ≡ true
unfolding validate
claimed_record-valid o now r t b n = ground arith

claim-unconfirmed :
    (j : Journal) (o : Ownership) (r : GenerationRecord) (now : Time)
    → read j ≡ some (r, false)
    → o.claimed ≡ false
    → o.released ≡ false
    → o.superseded ≡ false
    → r.highest_reserved ≡ o.ticket
    → r.active_generation < o.ticket
    → trim_space o.owner ≢ []
    → claim j unconfirmed o now
      ≡ (j ++ entry (claimed_record o now r) ∷ [], o, record unclaimed { is_error = true })
unfolding claim claiming is_overtaken claim_result decide append_line base reaches
claim-unconfirmed j o r now e c l s t b n = ground (
  arith,
  update-eq j unconfirmed (claiming o now) r false e refl,
  claimed_record-valid o now r t b n,
)

claim-own_record :
    (j : Journal) (io : Io) (o : Ownership) (r : GenerationRecord) (now : Time)
    → read j ≡ some (r, false)
    → reaches io false ≡ true
    → o.claimed ≡ false
    → o.released ≡ false
    → o.superseded ≡ false
    → r.active_generation ≡ o.ticket
    → ((claim j io o now).1.superseded ≡ true) × ((claim j io o now).1.claimed ≡ false)
unfolding claim claiming is_overtaken claim_result mark_superseded decide
claim-own_record j io o r now e i c l s t =
    ground (arith, update-eq j io (claiming o now) r false e i)

-- A claim whose record was written but not confirmed is lost: the instance reports an error and is
-- not claimed, and its next claim whose update gets to its callback retires it as overtaken, although the
-- journal names it as the active owner.
pub claim_unsynced_retires :
    (j : Journal) (io : Io) (o : Ownership) (r : GenerationRecord) (now now' : Time)
    → read j ≡ some (r, false)
    → reaches io false ≡ true
    → o.claimed ≡ false
    → o.released ≡ false
    → o.superseded ≡ false
    → r.highest_reserved ≡ o.ticket
    → r.active_generation < o.ticket
    → trim_space o.owner ≢ []
    → let first = claim j unconfirmed o now in
      (first.1 ≡ o)
      × (first.2.is_error ≡ true)
      × ((claim first.0 io o now').1.superseded ≡ true)
      × ((claim first.0 io o now').1.claimed ≡ false)
claim_unsynced_retires j io o r now now' e i c l s t b n =
    let first = claim-unconfirmed j o r now e c l s t b n in
    let afterwards =
      read-append j r (claimed_record o now r) e (claimed_record-valid o now r t b n)
        (omega arith) in
    let second =
      claim-own_record (j ++ entry (claimed_record o now r) ∷ []) io o (claimed_record o now r) now'
        afterwards i c l s refl in
    (
      ground (arith, first),
      ground (arith, first),
      ground (arith, first, second),
      ground (arith, first, second),
    )

first_cut :
    (io : Io) (now : Time)
    → io.refuses ≡ false
    → io.is_large ≡ false
    → io.append ≡ torn
    → update [] io (reserving now) ≡ (cut ∷ [], none)
unfolding update read decide reserving last_ticket validate append_line
first_cut io now i g a = ground arith

after_cut : (io : Io) (now : Time) → update (cut ∷ []) io (reserving now) ≡ (cut ∷ [], none)
unfolding update read read_lines
after_cut io now = ground arith

-- After a crash that cuts the first append to an empty journal, every later reservation of any
-- instance fails, and the journal stays as it is.
pub reserve_after_cut_start :
    (io io' : Io) (w w' : Text) (now now' : Time)
    → io.refuses ≡ false
    → io.is_large ≡ false
    → io.append ≡ torn
    → reserve (reserve [] io w now).0 io' w' now' ≡ (cut ∷ [], none)
unfolding reserve
reserve_after_cut_start io io' w w' now now' i g a =
    ground (arith, first_cut io now i g a, after_cut io' now')
