-- ===== src/Common/Clock.antt =====
-- Go's time.Time and time.Duration, in nanoseconds: an instant counts from the year 1, and 0 is
-- the zero time; a duration that is not positive is 0. Instants do not wrap.
use Prim.Native.Nat.{ℕ}
use mathlib.Core.Bool.{Bool}
use cpa_codex_quota_schedule.Common.Tests.{ltb, ◌==◌, if◌then◌else◌}

abbrev pub Time : Type 0
Time = ℕ

abbrev pub Duration : Type 0
Duration = ℕ

abbrev pub is_zero : Time → Bool
is_zero t = t == 0

-- t.Before(u) and t.After(u).
abbrev pub before : Time → Time → Bool
before t u = ltb t u

abbrev pub after : Time → Time → Bool
after t u = ltb u t

-- The later of two instants, as in `if u.After(t) { t = u }`.
abbrev pub later : Time → Time → Time
later t u = if after u t then u else t

abbrev pub second : Duration
second = 1_000_000_000

abbrev pub minute : Duration
minute = 60_000_000_000

abbrev pub hour : Duration
hour = 3_600_000_000_000
