-- ===== src/Concurrency/Complete.antt =====
-- concurrency.go: handleConcurrencyComplete and concurrencyComplete, the end of a request that CPA
-- reports, over all that holds something for it. Its parts run one after the other under their own
-- locks. The refund to the balanced accounts for a request that was not dispatched, which counts in
-- float64, is left out.
use cpa_codex_quota_schedule.Common.{
  ℕ, Bool, not, ◌&&◌, ◌||◌, [], ◌∷◌, Option, none, some, ltb, leb, ◌==◌, if◌then◌else◌, Text, text,
  is_empty, same, to_lower, trim_space, Time, Duration,
}
use cpa_codex_quota_schedule.Recovery.Lifecycle.{finish}
use cpa_codex_quota_schedule.Ban.Completion.{complete_owned_probe}
use cpa_codex_quota_schedule.Continuity.Gate as Pacing
use cpa_codex_quota_schedule.Sessions.Table.{Table, renew_session}
use cpa_codex_quota_schedule.Concurrency.Ledger.{Request, release}
use cpa_codex_quota_schedule.Concurrency.Rejected.{System}

pub record Runtime : Type 0 where
  pub system : System
  pub pacing : Pacing.Gate
  pub sessions : Table

-- What CPA reports.
pub record Completion : Type 0 where
  pub request_id : Text
  pub outcome : Text
  pub status_code : ℕ

-- A long s folds into an s for strings.EqualFold, and not for strings.ToLower.
abbrev pub fold_s : Text → Text
fold_s [] = []
fold_s (c ∷ t) = (if c == 383 then 115 else c) ∷ fold_s t

unfoldable pub has_succeeded : Completion → Bool
has_succeeded c =
    same (to_lower (fold_s (trim_space c.outcome))) (text "succeeded")
    && (c.status_code == 0 || (leb 200 c.status_code && ltb c.status_code 300))

abbrev pub renewed : Option Request → Table → Time → Table
renewed none t now = t
renewed (some r) t now =
    if r.dispatched && not (is_empty r.session_key)
    then renew_session t r.session_key r.auth_id now
    else t

unfoldable pub complete_request : Runtime → Text → Time → Runtime
complete_request s id now =
    let (gate, r) = release s.system.gate id in
    record {
      system = record s.system { gate = gate };
      pacing = Pacing.complete s.pacing id now;
      sessions = renewed r s.sessions now;
    }

-- Returns whether the state must be saved.
unfoldable pub handle_complete : Runtime → Completion → Time → Duration → Duration → Runtime × Bool
handle_complete s c now base max =
    let (guard, has_finished) = finish s.system.guard c.request_id (has_succeeded c) now base max in
    let (bans, has_completed) =
      complete_owned_probe s.system.bans c.request_id (has_succeeded c) now base max in
    (
      complete_request (record s { system = record s.system { guard = guard; bans = bans } })
          c.request_id now,
      has_completed || has_finished,
    )
