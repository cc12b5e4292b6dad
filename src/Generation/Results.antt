-- ===== src/Generation/Results.antt =====
-- What an update of the ownership journal reports, and what the journal then holds.
use cpa_codex_quota_schedule.Common.{
  Bool, true, false, ◌||◌, none, refl, [], ◌∷◌, ◌++◌, some, ◌≡◌, inl, inr, arith, if◌then◌else◌,
  Bool-cases,
}
use cpa_codex_quota_schedule.Generation.Journal.{
  GenerationRecord, entry, Journal, validate, read, Append, written, unsynced, torn, lost, Io,
  Verdict, abort, leave, write, append_line, decide, compact, update, Compaction, compacted,
  renamed, uncompacted, after_compaction, is_compacted, reaches,
}
use cpa_codex_quota_schedule.Generation.Fence.{NotBehind, read-valid, read-append, compact-read}

-- The journal after the compaction that may come before the callback.
unfoldable pub base : Journal → GenerationRecord → Bool → Io → Journal
base j r c io = if c || io.is_large then compact r else j

pub read-base :
    (j : Journal) (r : GenerationRecord) (c : Bool) (io : Io) (v : GenerationRecord)
    → read j ≡ some (r, c)
    → validate v ≡ true
    → NotBehind r v
    → read (base j r c io ++ entry v ∷ []) ≡ some (v, false)
unfolding base
read-base j r c io v e g b = elim (Bool-cases (c || io.is_large)) [
  | inl h ↦ rw h (
      read-append (compact r) (record r { version = 1 }) v (compact-read r (read-valid j r c e)) g
        (omega (arith, b)))
  | inr h ↦ rw h (read-append j r v (ground arith) g b)
]

after_compaction-eq :
    (k : Compaction) (j : Journal) (r : GenerationRecord) (a : Append) (v : Verdict)
    → is_compacted k ≡ true
    → after_compaction k j r a v ≡ decide (compact r) r a v
unfolding after_compaction is_compacted
after_compaction-eq compacted j r a v h = refl
after_compaction-eq renamed j r a v h = absurd (ground arith)
after_compaction-eq uncompacted j r a v h = absurd (ground arith)

pub update-eq :
    (j : Journal) (io : Io) (f : GenerationRecord → Verdict) (r : GenerationRecord) (c : Bool)
    → read j ≡ some (r, c)
    → reaches io c ≡ true
    → update j io f ≡ decide (base j r c io) r io.append (f r)
unfolding update base reaches
update-eq j io f r c e h = elim (Bool-cases (c || io.is_large)) [
  | inl b ↦ ground (arith, after_compaction-eq io.compaction j r io.append (f r))
  | inr b ↦ ground arith
]

after_compaction-none :
    (k : Compaction) (j : Journal) (r : GenerationRecord) (a : Append) (v : Verdict)
    → is_compacted k ≡ false
    → (after_compaction k j r a v).1 ≡ none
unfolding after_compaction is_compacted
after_compaction-none compacted j r a v h = absurd (ground arith)
after_compaction-none renamed j r a v h = refl
after_compaction-none uncompacted j r a v h = refl

-- An update that does not get to its callback is an error.
pub update-none :
    (j : Journal) (io : Io) (f : GenerationRecord → Verdict) (r : GenerationRecord) (c : Bool)
    → read j ≡ some (r, c)
    → reaches io c ≡ false
    → (update j io f).1 ≡ none
unfolding update reaches
update-none j io f r c e h = ground (arith, after_compaction-none io.compaction j r io.append (f r))

-- What a report of a record means, by what the callback decided.
abbrev pub Reported : Verdict → GenerationRecord → Journal → Journal → GenerationRecord → Type 0
Reported abort r b j v = ⊥
Reported leave r b j v = v ≡ r
Reported (write w) r b j v =
    (v ≡ record w { version = 1 }) × (validate v ≡ true) × (j ≡ b ++ entry v ∷ [])

append_line-Reported :
    (b : Journal) (r w s v : GenerationRecord) (a : Append)
    → validate w ≡ true
    → (append_line b r w a).1 ≡ some (s, v)
    → (s ≡ r) × (v ≡ w) × (validate v ≡ true) × ((append_line b r w a).0 ≡ b ++ entry v ∷ [])
unfolding append_line
append_line-Reported b r w s v written g u = ground arith
append_line-Reported b r w s v unsynced g u = absurd (ground arith)
append_line-Reported b r w s v torn g u = absurd (ground arith)
append_line-Reported b r w s v lost g u = absurd (ground arith)

decide-Reported :
    (b : Journal) (r s v : GenerationRecord) (a : Append) (x : Verdict)
    → (decide b r a x).1 ≡ some (s, v)
    → (s ≡ r) × Reported x r b (decide b r a x).0 v
unfolding decide
decide-Reported b r s v a abort u = absurd (ground arith)
decide-Reported b r s v a leave u = ground arith
decide-Reported b r s v a (write w) u =
    ground (arith, append_line-Reported b r (record w { version = 1 }) s v a)

-- An update that reports a record saw the one that the journal held.
pub update-Reported :
    (j : Journal) (io : Io) (f : GenerationRecord → Verdict) (r s v : GenerationRecord) (c : Bool)
    → read j ≡ some (r, c)
    → (update j io f).1 ≡ some (s, v)
    → (s ≡ r) × Reported (f r) r (base j r c io) (update j io f).0 v
update-Reported j io f r s v c e u = elim (Bool-cases (reaches io c)) [
  | inr h ↦ absurd (ground (arith, update-none j io f r c e h))
  | inl h ↦
      let q = update-eq j io f r c e h in
      rw q (decide-Reported (base j r c io) r s v io.append (f r) (rw q at u))
]
