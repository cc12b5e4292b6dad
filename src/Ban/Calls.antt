-- ===== src/Ban/Calls.antt =====
-- The calls that write to the quarantine store, and their sequences.
use cpa_codex_quota_schedule.Common.{Bool, List, [], ◌∷◌, Text, Time, Duration}
use cpa_codex_quota_schedule.Ban.Entry.{BanEntry}
use cpa_codex_quota_schedule.Ban.Store.{
  BanState, set, set_if_absent, record_429, try_start_probe_owned,
}
use cpa_codex_quota_schedule.Ban.Completion.{
  complete_probe, mark_probe_dispatched, complete_owned_probe_except, clear, clear_all, remove_same,
}

pub data Call : Type 0 where
  sets sets_if_absent : Text → BanEntry → Call
  records : Text → BanEntry → Time → Call
  starts : Text → Text → Time → Duration → Call
  completes : Text → Time → Time → Bool → Duration → Call
  marks : Text → Text → Call
  completes_owned : Text → Text → Bool → Bool → Time → Duration → Duration → Call
  clears : Text → Call
  removes : Text → BanEntry → Call
  clears_all : Call

unfoldable pub step : BanState → Call → BanState
step s (sets id e) = set s id e
step s (sets_if_absent id e) = set_if_absent s id e
step s (records id e requested) = record_429 s id e requested
step s (starts id owner now lease) = (try_start_probe_owned s id owner now lease).0
step s (completes id requested now success retry_after) =
    (complete_probe s id requested now success retry_after).0
step s (marks id owner) = mark_probe_dispatched s id owner
step s (completes_owned owner except success preserve now retry_after max_ban) =
    (complete_owned_probe_except s owner except success preserve now retry_after max_ban).0
step s (clears id) = clear s id
step s (removes id e) = remove_same s id e
step s clears_all = (clear_all s).0

unfoldable pub run : BanState → List Call → BanState
run s [] = s
run s (c ∷ cs) = run (step s c) cs
