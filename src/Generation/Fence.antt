-- ===== src/Generation/Fence.antt =====
-- generation_owner.go: the record that the ownership journal holds before and after one update.
use cpa_codex_quota_schedule.Common.{
  ◌≤◌, Bool, true, false, ◌||◌, [], ◌∷◌, ◌++◌, Option, none, some, ◌≡◌, ◌≢◌, refl, inl, inr, arith,
  Bool-cases,
}
use cpa_codex_quota_schedule.Generation.Journal.{
  GenerationRecord, Line, entry, cut, corrupt, Journal, validate, read_lines, read, Append, written,
  unsynced, torn, lost, Io, Verdict, abort, leave, write, append_line, decide, compact, update,
  Compaction, compacted, renamed, uncompacted, after_compaction,
}

-- The second record does not go back behind the first.
pub record NotBehind (r r' : GenerationRecord) : Type 0 where
  pub highest_le : r.highest_reserved ≤ r'.highest_reserved
  pub active_le : r.active_generation ≤ r'.active_generation

abbrev pub Forward : GenerationRecord → Verdict → Type 0
Forward r abort = Unit
Forward r leave = Unit
Forward r (write v) = NotBehind r v

read_lines-append :
    (found : Option GenerationRecord) (j : Journal) (r v : GenerationRecord)
    → read_lines found j ≡ some (r, false)
    → validate v ≡ true
    → NotBehind r v
    → read_lines found (j ++ entry v ∷ []) ≡ some (v, false)
unfolding read_lines
read_lines-append none [] r v e g b = absurd (ground arith)
read_lines-append (some f) [] r v e g b = ground arith
read_lines-append none (cut ∷ []) r v e g b = absurd (ground arith)
read_lines-append (some f) (cut ∷ []) r v e g b = absurd (ground arith)
read_lines-append none (cut ∷ l ∷ ls) r v e g b = absurd (ground arith)
read_lines-append (some f) (cut ∷ l ∷ ls) r v e g b = absurd (ground arith)
read_lines-append none (corrupt ∷ ls) r v e g b = absurd (ground arith)
read_lines-append (some f) (corrupt ∷ ls) r v e g b = absurd (ground arith)
read_lines-append none (entry x ∷ ls) r v e g b = ground (arith, read_lines-append (some x) ls r v)
read_lines-append (some f) (entry x ∷ ls) r v e g b =
    ground (arith, read_lines-append (some x) ls r v)

read_lines-cut :
    (f : GenerationRecord) (j : Journal) (r : GenerationRecord)
    → read_lines (some f) j ≡ some (r, false)
    → read_lines (some f) (j ++ cut ∷ []) ≡ some (r, true)
unfolding read_lines
read_lines-cut f [] r e = ground arith
read_lines-cut f (cut ∷ []) r e = absurd (ground arith)
read_lines-cut f (cut ∷ l ∷ ls) r e = absurd (ground arith)
read_lines-cut f (corrupt ∷ ls) r e = absurd (ground arith)
read_lines-cut f (entry x ∷ ls) r e = ground (arith, read_lines-cut x ls r)

read_lines-valid :
    (f : GenerationRecord) (j : Journal) (r : GenerationRecord) (c : Bool)
    → read_lines (some f) j ≡ some (r, c)
    → validate f ≡ true
    → validate r ≡ true
unfolding read_lines
read_lines-valid f [] r c e g = ground arith
read_lines-valid f (cut ∷ []) r c e g = ground arith
read_lines-valid f (cut ∷ l ∷ ls) r c e g = absurd (ground arith)
read_lines-valid f (corrupt ∷ ls) r c e g = absurd (ground arith)
read_lines-valid f (entry x ∷ ls) r c e g = ground (arith, read_lines-valid x ls r c)

pub read-valid :
    (j : Journal) (r : GenerationRecord) (c : Bool) → read j ≡ some (r, c) → validate r ≡ true
unfolding read read_lines
read-valid [] r c e = unfold validate in ground arith
read-valid (cut ∷ []) r c e = absurd (ground arith)
read-valid (cut ∷ l ∷ ls) r c e = absurd (ground arith)
read-valid (corrupt ∷ ls) r c e = absurd (ground arith)
read-valid (entry x ∷ ls) r c e = ground (arith, read_lines-valid x ls r c)

pub read-append :
    (j : Journal) (r v : GenerationRecord)
    → read j ≡ some (r, false)
    → validate v ≡ true
    → NotBehind r v
    → read (j ++ entry v ∷ []) ≡ some (v, false)
unfolding read read_lines
read-append [] r v e g b = ground arith
read-append (cut ∷ []) r v e g b = absurd (ground arith)
read-append (cut ∷ l ∷ ls) r v e g b = absurd (ground arith)
read-append (corrupt ∷ ls) r v e g b = absurd (ground arith)
read-append (entry x ∷ ls) r v e g b = ground (arith, read_lines-append (some x) ls r v)

pub read-cut :
    (j : Journal) (r : GenerationRecord)
    → j ≢ []
    → read j ≡ some (r, false)
    → read (j ++ cut ∷ []) ≡ some (r, true)
unfolding read read_lines
read-cut [] r n e = absurd (n refl)
read-cut (cut ∷ []) r n e = absurd (ground arith)
read-cut (cut ∷ l ∷ ls) r n e = absurd (ground arith)
read-cut (corrupt ∷ ls) r n e = absurd (ground arith)
read-cut (entry x ∷ ls) r n e = ground (arith, read_lines-cut x ls r)

-- The journal can be read, and its record is not behind r.
pub record Reads (j : Journal) (r : GenerationRecord) : Type 0 where
  pub latest : GenerationRecord
  pub is_cut : Bool
  pub reads : read j ≡ some (latest, is_cut)
  pub ahead : NotBehind r latest
  pub is_used : j ≢ []

pub append-ne : (j : Journal) (l : Line) → j ++ l ∷ [] ≢ []
append-ne [] l = λ e. cc
append-ne (x ∷ j) l = λ e. cc

append_line-Reads :
    (j : Journal) (seen v : GenerationRecord) (a : Append)
    → j ≢ []
    → read j ≡ some (seen, false)
    → validate v ≡ true
    → NotBehind seen v
    → Reads (append_line j seen v a).0 seen
unfolding append_line
append_line-Reads j r v written n e g b = record {
  latest = v;
  is_cut = false;
  reads = read-append j r v e g b;
  ahead = b;
  is_used = append-ne j (entry v);
}
append_line-Reads j r v unsynced n e g b = record {
  latest = v;
  is_cut = false;
  reads = read-append j r v e g b;
  ahead = b;
  is_used = append-ne j (entry v);
}
append_line-Reads j r v torn n e g b = record {
  latest = r;
  is_cut = true;
  reads = read-cut j r n e;
  ahead = omega arith;
  is_used = append-ne j cut;
}
append_line-Reads j r v lost n e g b = record {
  latest = r;
  is_cut = false;
  reads = e;
  ahead = omega arith;
  is_used = n;
}

decide-Reads :
    (j : Journal) (r : GenerationRecord) (a : Append) (x : Verdict)
    → j ≢ []
    → read j ≡ some (r, false)
    → Forward r x
    → Reads (decide j r a x).0 r
unfolding decide
decide-Reads j r a abort n e f = record {
  latest = r;
  is_cut = false;
  reads = e;
  ahead = omega arith;
  is_used = n;
}
decide-Reads j r a leave n e f = record {
  latest = r;
  is_cut = false;
  reads = e;
  ahead = omega arith;
  is_used = n;
}
decide-Reads j r a (write v) n e f = elim (Bool-cases (validate (record v { version = 1 }))) [
  | inl g ↦ rw (g, decide) (append_line-Reads j r (record v { version = 1 }) a n e g (omega arith))
  | inr g ↦
      rw (g, decide)
        (record { latest = r; is_cut = false; reads = e; ahead = omega arith; is_used = n })
]

pub compact-read :
    (r : GenerationRecord)
    → validate r ≡ true
    → read (compact r) ≡ some (record r { version = 1 }, false)
unfolding compact read read_lines validate
compact-read r g = ground arith

decide-base :
    (j : Journal) (r r' : GenerationRecord) (a : Append) (x : Verdict)
    → (decide j r a x).0 ≡ (decide j r' a x).0
unfolding decide append_line
decide-base j r r' a abort = refl
decide-base j r r' a leave = refl
decide-base j r r' written (write v) = ground arith
decide-base j r r' unsynced (write v) = ground arith
decide-base j r r' torn (write v) = ground arith
decide-base j r r' lost (write v) = ground arith

Forward-version :
    (r : GenerationRecord) (x : Verdict) → Forward r x → Forward (record r { version = 1 }) x
Forward-version r abort f = f
Forward-version r leave f = f
Forward-version r (write v) f = omega arith

compact-Reads :
    (r : GenerationRecord) (a : Append) (x : Verdict)
    → validate r ≡ true
    → Forward r x
    → Reads (decide (compact r) r a x).0 r
compact-Reads r a x g f =
    let k =
      decide-Reads (compact r) (record r { version = 1 }) a x (λ e. unfold compact in cc)
        (compact-read r g) (Forward-version r x f) in
    rw (decide-base (compact r) r (record r { version = 1 }) a x) (record {
      latest = k.latest;
      is_cut = k.is_cut;
      reads = k.reads;
      ahead = omega (arith, k.ahead);
      is_used = k.is_used;
    })

same_record-Reads :
    (j : Journal) (r : GenerationRecord) (c : Bool) → j ≢ [] → read j ≡ some (r, c) → Reads j r
same_record-Reads j r c n e = record {
  latest = r;
  is_cut = c;
  reads = e;
  ahead = omega arith;
  is_used = n;
}

after_compaction-Reads :
    (k : Compaction) (j : Journal) (r : GenerationRecord) (c : Bool) (a : Append) (x : Verdict)
    → j ≢ []
    → read j ≡ some (r, c)
    → Forward r x
    → Reads (after_compaction k j r a x).0 r
unfolding after_compaction
after_compaction-Reads compacted j r c a x n e w = compact-Reads r a x (read-valid j r c e) w
after_compaction-Reads renamed j r c a x n e w = record {
  latest = record r { version = 1 };
  is_cut = false;
  reads = compact-read r (read-valid j r c e);
  ahead = omega arith;
  is_used = λ e. unfold compact in cc;
}
after_compaction-Reads uncompacted j r c a x n e w = same_record-Reads j r c n e

-- However an update ends, the journal can still be read, and its record is not behind the one that
-- it held, as long as the callback only writes records that are not.
pub update-Reads :
    (j : Journal) (io : Io) (f : GenerationRecord → Verdict) (r : GenerationRecord) (c : Bool)
    → j ≢ []
    → read j ≡ some (r, c)
    → Forward r (f r)
    → Reads (update j io f).0 r
unfolding update
update-Reads j io f r c n e w = elim (Bool-cases io.refuses) [
  | inl b ↦ rw (b, update) (same_record-Reads j r c n e)
  | inr b ↦
      rw (b, e, update)
        (elim (Bool-cases (c || io.is_large)) [
          | inl g ↦ rw g (after_compaction-Reads io.compaction j r c io.append (f r) n e w)
          | inr g ↦ rw g (decide-Reads j r io.append (f r) n (ground arith) w)
        ])
]
