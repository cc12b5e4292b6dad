-- ===== src/Epoch/Apply.antt =====
-- quota_epoch.go, with canonicalNonRetryableWarmupCode of warmup.go and warmupEntryRevisionTime of
-- warmup_instance_lease.go: what the runtime does to its warmups when an epoch is confirmed. What other
-- callers do to the epoch while it does so is an argument. Saving the state is left out.
use cpa_codex_quota_schedule.Common.{
  ◌+◌, ◌*◌, Bool, false, not, ◌&&◌, ◌||◌, List, [], ◌∷◌, Option, none, some, leb, ◌==◌,
  if◌then◌else◌, Text, text, is_empty, same, contains, trim_space, to_lower, Dict, lookup, insert,
  Time, Duration, is_zero, later, minute,
}
use cpa_codex_quota_schedule.Quota.{is_one_of}
use cpa_codex_quota_schedule.Epoch.State.{
  blocked, Account, empty_account, World, is_pending_state, is_bootstrap, or_zero,
}
use cpa_codex_quota_schedule.Epoch.Sweep.{is_held}
use cpa_codex_quota_schedule.Epoch.Rounds.{Transition}

abbrev pub stale_activation_grace : Duration
stale_activation_grace = 30 * minute

-- What the epoch reads of a warmupEntry.
pub record WarmupEntry : Type 0 where
  pub auth_id : Text
  pub attempted_at : Time
  pub outcome_at : Time
  pub completed_at : Time
  pub activated_at : Time
  pub error : Text
  pub is_blocked : Bool
  pub epoch_id : Text

pub record Attempt : Type 0 where
  pub auth_id : Text
  pub at : Time

pub record Warmups : Type 0 where
  pub warmups : Dict WarmupEntry
  pub attempts : List Attempt

unfoldable pub revision_time : WarmupEntry → Time
revision_time e = later (later (later e.attempted_at e.completed_at) e.activated_at) e.outcome_at

-- strings.ReplaceAll of "-" by "_".
unfoldable pub underscored : Text → Text
underscored [] = []
underscored (c ∷ t) = let rest = underscored t in (if c == b'-' then b'_' else c) ∷ rest

unfoldable pub first_contained : Text → List Text → Text
first_contained code [] = []
first_contained code (marker ∷ markers) =
    let rest = first_contained code markers in if contains code marker then marker else rest

unfoldable pub canonical_non_retryable : Text → Text
canonical_non_retryable code = first_contained (underscored (to_lower (trim_space code))) (
    text "cyber_policy"
    ∷ text "cyber_abuse"
    ∷ text "abuse"
    ∷ text "deactivated_workspace"
    ∷ text "workspace_deactivated"
    ∷ text "account_deactivated"
    ∷ text "invalid_refresh_token"
    ∷ text "invalid_api_key"
    ∷ text "unauthorized"
    ∷ text "forbidden"
    ∷ [])

unfoldable pub is_hard_block : WarmupEntry → Bool
is_hard_block e =
    let code = to_lower (trim_space e.error) in
    not (is_empty (canonical_non_retryable code))
    || is_one_of code (
        text "http_401"
        ∷ text "http_403"
        ∷ text "invalid_warmup_model"
        ∷ text "invalid_warmup_request"
        ∷ text "invalid_management_url"
        ∷ [])

-- The accounts of the epoch, if it is still the one that was confirmed.
unfoldable pub affected : World → Transition → Dict Account
affected w t = if same w.epoch.id t.id then w.epoch.accounts else []

unfoldable pub must_clear : Transition → Account → WarmupEntry → Bool
must_clear t a e =
    let revision = revision_time e in
    not (is_bootstrap t.reason)
    || (is_pending_state a.state
        && not (same e.epoch_id t.id)
        && (is_zero revision
            || (not (is_zero a.observed_at)
                && leb (revision + stale_activation_grace) a.observed_at)))

abbrev pub stays_blocked : WarmupEntry → Bool
stays_blocked e = e.is_blocked && is_hard_block e

abbrev pub is_dropped : Transition → Option Account → WarmupEntry → Bool
is_dropped t none e = false
is_dropped t (some a) e = not (stays_blocked e) && must_clear t a e

abbrev pub marks_blocked : Option Account → WarmupEntry → Bool
marks_blocked none e = false
marks_blocked (some a) e = stays_blocked e

-- The entries that are left, and the accounts that stay blocked, with the reason.
unfoldable pub clear_entries :
    Transition → Dict Account → Dict WarmupEntry → Dict Text → Dict WarmupEntry × Dict Text
clear_entries t accounts [] marked = ([], marked)
clear_entries t accounts ((key, e) ∷ entries) marked =
    let id = trim_space e.auth_id in
    let a = lookup id accounts in
    let (rest, all) =
      clear_entries t accounts entries
        (if marks_blocked a e then insert id e.error marked else marked) in
    if is_dropped t a e then (rest, all) else ((key, e) ∷ rest, all)

unfoldable pub drop_attempts : Dict Account → List Attempt → List Attempt
drop_attempts accounts [] = []
drop_attempts accounts (x ∷ attempts) =
    let rest = drop_attempts accounts attempts in
    if is_held (lookup (trim_space x.auth_id) accounts) then rest else x ∷ rest

unfoldable pub block_accounts : Dict Text → Dict Account → Dict Account
block_accounts [] accounts = accounts
block_accounts ((id, code) ∷ marked) accounts = block_accounts marked (
    insert id
      (record (or_zero empty_account (lookup id accounts)) { state = blocked; error = code })
      accounts)

unfoldable pub apply_transition : World → Warmups → Transition → (World → World) → World × Warmups
apply_transition w m t others =
    let accounts = affected w t in
    let (entries, marked) = clear_entries t accounts m.warmups [] in
    let v = others w in
    if is_empty t.id then (w, m) else (
      (if same v.epoch.id t.id
          then record v {
            epoch = record v.epoch { accounts = block_accounts marked v.epoch.accounts };
          }
          else v),
      record {
        warmups = entries;
        attempts = if is_bootstrap t.reason then m.attempts else drop_attempts accounts m.attempts;
      },
    )
