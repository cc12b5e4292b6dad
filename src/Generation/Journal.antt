-- ===== src/Generation/Journal.antt =====
-- generation_owner.go: the ownership journal and its locked update. A line of the file is seen
-- as JSON decodes it; blank lines do not count. What the file system does to one update is an
-- argument: it can refuse before anything is written, fail a compaction before or after the journal
-- is replaced, or lose, cut or not confirm the append.
use cpa_codex_quota_schedule.Common.{
  ℕ, Bool, true, false, not, ◌&&◌, ◌||◌, List, [], ◌∷◌, ◌++◌, Option, none, some, leb, ◌==◌,
  if◌then◌else◌, Text, is_empty, trim_space, Time,
}

pub record GenerationRecord : Type 0 where
  pub version : ℕ
  pub highest_reserved : ℕ  -- uint64
  pub active_generation : ℕ  -- uint64
  pub active_owner : Text
  pub active : Bool
  pub reserved_at : Time
  pub claimed_at : Time
  pub released_at : Time

abbrev pub empty_record : GenerationRecord
empty_record = record {
  version = 1;
  highest_reserved = 0;
  active_generation = 0;
  active_owner = [];
  active = false;
  reserved_at = 0;
  claimed_at = 0;
  released_at = 0;
}

-- `cut` is a prefix of a record at the end of the file; `corrupt` any other line that is no
-- record, or one that is too long.
pub data Line : Type 0 where
  entry : GenerationRecord → Line
  cut corrupt : Line

abbrev pub Journal : Type 0
Journal = List Line

unfoldable pub validate : GenerationRecord → Bool
validate r =
    (r.version == 0 || r.version == 1)
    && leb r.active_generation r.highest_reserved
    && not (r.active && (r.active_generation == 0 || is_empty (trim_space r.active_owner)))

abbrev pub goes_on : Option GenerationRecord → GenerationRecord → Bool
goes_on none r = true
goes_on (some latest) r =
    leb latest.highest_reserved r.highest_reserved
    && leb latest.active_generation r.active_generation

-- The latest record, and whether the tail is cut. A record must be valid and not go back behind
-- the one before it.
unfoldable pub read_lines : Option GenerationRecord → Journal → Option (GenerationRecord × Bool)
read_lines none [] = none
read_lines (some r) [] = some (r, false)
read_lines none (cut ∷ []) = none
read_lines (some r) (cut ∷ []) = some (r, true)
read_lines found (cut ∷ l ∷ ls) = none
read_lines found (corrupt ∷ ls) = none
read_lines found (entry r ∷ ls) =
    let rest = read_lines (some r) ls in if validate r && goes_on found r then rest else none

-- A file without a line is an empty journal; one with lines and no record is an error.
unfoldable pub read : Journal → Option (GenerationRecord × Bool)
read [] = some (empty_record, false)
read (l ∷ ls) = read_lines none (l ∷ ls)

pub data Append : Type 0 where
  written unsynced torn lost : Append

-- How a compaction ends. `renamed` reports an error with the journal already replaced, since the
-- directory is opened and synced after the rename; `uncompacted` one with the journal as it was.
pub data Compaction : Type 0 where
  compacted renamed uncompacted : Compaction

pub record Io : Type 0 where
  pub refuses : Bool
  pub is_large : Bool
  pub compaction : Compaction
  pub append : Append

-- What the callback decides under the lock.
pub data Verdict : Type 0 where
  abort leave : Verdict
  write : GenerationRecord → Verdict

-- Returns the record that the callback saw with the one now in force, or none for an error.
abbrev pub Update : Type 0
Update = Journal × Option (GenerationRecord × GenerationRecord)

unfoldable pub append_line : Journal → GenerationRecord → GenerationRecord → Append → Update
append_line j seen r written = (j ++ entry r ∷ [], some (seen, r))
append_line j seen r unsynced = (j ++ entry r ∷ [], none)
append_line j seen r torn = (j ++ cut ∷ [], none)
append_line j seen r lost = (j, none)

unfoldable pub decide : Journal → GenerationRecord → Append → Verdict → Update
decide j r a abort = (j, none)
decide j r a leave = (j, some (r, r))
decide j r a (write r') =
    let v = record r' { version = 1 } in if validate v then append_line j r v a else (j, none)

-- The journal that holds the last record alone.
unfoldable pub compact : GenerationRecord → Journal
compact r = entry (record r { version = 1 }) ∷ []

-- The callback decides on the compacted journal, and is not called if the compaction failed.
unfoldable pub after_compaction :
    Compaction → Journal → GenerationRecord → Append → Verdict → Update
after_compaction compacted j r a v = decide (compact r) r a v
after_compaction renamed j r a v = (compact r, none)
after_compaction uncompacted j r a v = (j, none)

unfoldable pub is_compacted : Compaction → Bool
is_compacted compacted = true
is_compacted renamed = false
is_compacted uncompacted = false

-- A cut tail or a large file is compacted before the callback runs.
unfoldable pub update : Journal → Io → (GenerationRecord → Verdict) → Update
update j io f = if io.refuses then (j, none) else elim (read j) [
  | none ↦ (j, none)
  | some (r, is_cut) ↦
      if is_cut || io.is_large
      then after_compaction io.compaction j r io.append (f r)
      else decide j r io.append (f r)
]

-- Does an update of a journal that can be read, with a cut tail or not, get to its callback?
unfoldable pub reaches : Io → Bool → Bool
reaches io is_cut = not io.refuses && (not (is_cut || io.is_large) || is_compacted io.compaction)
