-- ===== src/Generation/Register.antt =====
-- generation_owner.go: the abstract register that the ownership journal implements, and one update.
-- The register hands out rising tickets, and grants the ownership to the newest one.
use cpa_codex_quota_schedule.Common.{
  ℕ, ◌<◌, Bool, true, false, ◌||◌, [], Option, none, some, ◌≡◌, ◌≢◌, refl, inl, inr, arith, Text,
  if◌then◌else◌, Bool-cases,
}
use mathlib.Core.Path.{subst}
use cpa_codex_quota_schedule.Generation.Journal.{
  GenerationRecord, entry, cut, Journal, validate, read, Append, written, unsynced, torn, lost, Io,
  Verdict, abort, leave, write, append_line, decide, compact, update, Compaction, compacted,
  renamed, uncompacted, after_compaction,
}
use cpa_codex_quota_schedule.Generation.Fence.{
  NotBehind, read-valid, read-append, read-cut, compact-read, append-ne,
}

-- The last ticket, the newest generation that was granted, and who holds it now.
pub record Register : Type 0 where
  pub last : ℕ
  pub granted : ℕ
  pub holder : Option Text

-- A step of the specification.
pub data Step (r : Register) : Register → Type 0 where
  stays : Step r r
  takes : (t : ℕ) → r.last < t → r.granted < t → Step r (record r { last = t })
  grants :
      (owner : Text)
      → r.granted < r.last
      → Step r (record r { granted = r.last; holder = some owner })
  frees : (owner : Text) → r.holder ≡ some owner → Step r (record r { holder = none })

pub data Steps (r : Register) : Register → Type 0 where
  here : Steps r r
  next : {s t : Register} → Steps r s → Step s t → Steps r t

abbrev pub view : GenerationRecord → Register
view r = record {
  last = r.highest_reserved;
  granted = r.active_generation;
  holder = if r.active then some r.active_owner else none;
}

-- The journal stands for the register.
pub record Shows (j : Journal) (s : Register) : Type 0 where
  pub latest : GenerationRecord
  pub is_cut : Bool
  pub reads : read j ≡ some (latest, is_cut)
  pub shown : view latest ≡ s
  pub is_used : j ≢ []

-- Every write of the callback is a step.
abbrev pub Steady : GenerationRecord → Verdict → Type 0
Steady r abort = Unit
Steady r leave = Unit
Steady r (write v) = NotBehind r v × Step (view r) (view v)

-- A journal that stands for a register that is one step on.
abbrev pub Moves : Journal → Register → Type 0
Moves j s = (t : Register) × Step s t × Shows j t

append_line-Moves :
    (b : Journal) (seen x v : GenerationRecord) (a : Append)
    → b ≢ []
    → read b ≡ some (x, false)
    → validate v ≡ true
    → NotBehind x v
    → Step (view x) (view v)
    → Moves (append_line b seen v a).0 (view x)
unfolding append_line
append_line-Moves b seen x v written n e g f s = (
  view v,
  s,
  record {
    latest = v;
    is_cut = false;
    reads = read-append b x v e g f;
    shown = refl;
    is_used = append-ne b (entry v);
  },
)
append_line-Moves b seen x v unsynced n e g f s = (
  view v,
  s,
  record {
    latest = v;
    is_cut = false;
    reads = read-append b x v e g f;
    shown = refl;
    is_used = append-ne b (entry v);
  },
)
append_line-Moves b seen x v torn n e g f s = (
  view x,
  stays,
  record {
    latest = x;
    is_cut = true;
    reads = read-cut b x n e;
    shown = refl;
    is_used = append-ne b cut;
  },
)
append_line-Moves b seen x v lost n e g f s =
    (view x, stays, record { latest = x; is_cut = false; reads = e; shown = refl; is_used = n })

decide-Moves :
    (b : Journal) (seen x : GenerationRecord) (a : Append) (v : Verdict)
    → b ≢ []
    → read b ≡ some (x, false)
    → Steady x v
    → Moves (decide b seen a v).0 (view x)
unfolding decide
decide-Moves b seen x a abort n e f =
    (view x, stays, record { latest = x; is_cut = false; reads = e; shown = refl; is_used = n })
decide-Moves b seen x a leave n e f =
    (view x, stays, record { latest = x; is_cut = false; reads = e; shown = refl; is_used = n })
decide-Moves b seen x a (write v) n e (f, s) =
    elim (Bool-cases (validate (record v { version = 1 }))) [
      | inl g ↦
          rw (g, decide)
            (append_line-Moves b seen x (record v { version = 1 }) a n e g (omega (arith, f)) s)
      | inr g ↦
          rw (g, decide)
            (
              view x,
              stays,
              record { latest = x; is_cut = false; reads = e; shown = refl; is_used = n },
            )
    ]

Steady-version :
    (r : GenerationRecord) (v : Verdict) → Steady r v → Steady (record r { version = 1 }) v
Steady-version r abort f = f
Steady-version r leave f = f
Steady-version r (write v) (f, s) = (omega (arith, f), s)

after_compaction-Moves :
    (k : Compaction) (j : Journal) (r : GenerationRecord) (c : Bool) (a : Append) (v : Verdict)
    → j ≢ []
    → read j ≡ some (r, c)
    → Steady r v
    → Moves (after_compaction k j r a v).0 (view r)
unfolding after_compaction
after_compaction-Moves compacted j r c a v n e s =
    decide-Moves (compact r) r (record r { version = 1 }) a v (λ e. unfold compact in cc)
      (compact-read r (read-valid j r c e)) (Steady-version r v s)
after_compaction-Moves renamed j r c a v n e s = (
  view r,
  stays,
  record {
    latest = record r { version = 1 };
    is_cut = false;
    reads = compact-read r (read-valid j r c e);
    shown = refl;
    is_used = λ e. unfold compact in cc;
  },
)
after_compaction-Moves uncompacted j r c a v n e s =
    (view r, stays, record { latest = r; is_cut = c; reads = e; shown = refl; is_used = n })

decided-Moves :
    (j : Journal) (r : GenerationRecord) (c is_large : Bool) (k : Compaction) (a : Append)
    (v : Verdict)
    → j ≢ []
    → read j ≡ some (r, c)
    → Steady r v
    → Moves (if c || is_large then after_compaction k j r a v else decide j r a v).0 (view r)
decided-Moves j r c is_large k a v n e s = elim (Bool-cases (c || is_large)) [
  | inl g ↦ rw g (after_compaction-Moves k j r c a v n e s)
  | inr g ↦ rw g (decide-Moves j r r a v n (ground arith) s)
]

-- However an update ends, the journal stands for the register or for one a step on.
pub update-Moves :
    (j : Journal) (io : Io) (f : GenerationRecord → Verdict) (s : Register)
    → ((r : GenerationRecord) → Steady r (f r))
    → Shows j s
    → Moves (update j io f).0 s
unfolding update
update-Moves j io f s w h = elim (Bool-cases io.refuses) [
  | inl b ↦ rw (b, update) (s, stays, h)
  | inr b ↦
      rw (b, h.reads, update)
        (subst
          (Moves
            (if h.is_cut || io.is_large
              then after_compaction io.compaction j h.latest io.append (f h.latest)
              else decide j h.latest io.append (f h.latest)).0)
          h.shown
          (decided-Moves j h.latest h.is_cut io.is_large io.compaction io.append (f h.latest)
            h.is_used h.reads (w h.latest)))
]
