-- ===== src/Epoch/Examples/Warmups.antt =====
-- The theorems on the warmups of an epoch at concrete states.
use cpa_codex_quota_schedule.Runtime.Identity.{scan_ids}
use cpa_codex_quota_schedule.Common.{Bool}
use cpa_codex_quota_schedule.Common.{text_discrete}
use cpa_codex_quota_schedule.Common.{
  trim_space, lookup, ◌+◌, ◌*◌, true, false, List, [], ◌∷◌, none, ◌≡◌, refl, All, sym, Text, text,
  minute, second, hour,
}
use cpa_codex_quota_schedule.Runtime.Identity.{canonical_auth_id}
use cpa_codex_quota_schedule.Epoch.Rounds.{Transition}
use cpa_codex_quota_schedule.Epoch.State.{
  Account, empty_account, pending, World, new_state, provider_reset, empty_poll,
}
use cpa_codex_quota_schedule.Epoch.Observe.{record_warmup_outcome, warmup_allowance}
use cpa_codex_quota_schedule.Epoch.Calls.{step, Call, prepare, use_account, run}
use cpa_codex_quota_schedule.Epoch.Backed.{first_world}
use cpa_codex_quota_schedule.Epoch.Warmed.{Keeps, warmup_allowance-once}
use cpa_codex_quota_schedule.Epoch.Examples.{digit, morning, inventory, spent}
use cpa_codex_quota_schedule.Epoch.Apply.{WarmupEntry, Warmups, apply_transition}
use cpa_codex_quota_schedule.Epoch.Cleared.{IsCleared, apply_transition-IsCleared}

-- An account that waits for its warmup.
abbrev waiting : Account
waiting = record empty_account {
  auth_id = text "a";
  auth_index = text "1";
  state = pending;
  observed_at = morning;
}

abbrev waiting_world : World
waiting_world = record (first_world [] []) {
  epoch = record new_state { id = text "week-1"; accounts = (text "a", waiting) ∷ [] };
}

abbrev later_calls : List Call
later_calls =
    prepare inventory (morning + minute) ∷ use_account [] (text "a") [] (morning + hour) ∷ []

abbrev warmed_world : World
warmed_world =
    (record_warmup_outcome waiting_world [] (text "a") (text "week-1") true false []
      (morning + second)).0

waiting_world-recorded :
    (record_warmup_outcome waiting_world []
      (text "a")
      (text "week-1")
      true
      false
      []
      (morning + second)).1
    ≡ true
unfolding record_warmup_outcome text_discrete lookup canonical_auth_id trim_space scan_ids
waiting_world-recorded = refl

waiting-canonical :
    canonical_auth_id (record { quotas = []; identities = [] }) (text "a") [] ≡ text "a"
unfolding canonical_auth_id trim_space lookup scan_ids text_discrete
waiting-canonical = refl

later_calls-Keeps :
    All
      (Keeps (canonical_auth_id (record { quotas = []; identities = [] }) (text "a") []))
      later_calls
unfolding lookup text_discrete
later_calls-Keeps = rw waiting-canonical (refl, (tt, tt))

later_calls-unconfirmed : All (λ (t : Transition). t.id ≡ []) (run digit warmed_world later_calls).1
unfolding run step
later_calls-unconfirmed = (refl, (refl, tt))

warmup_allowance-once_example :
    warmup_allowance
      (run digit warmed_world later_calls).0.epoch
      (spent (text "a") (text "1"))
      empty_poll
      (morning + 2 * hour)
    ≡ none
unfolding trim_space
warmup_allowance-once_example =
    warmup_allowance-once digit waiting_world [] (text "a") (text "week-1") false []
      (morning + second) later_calls (spent (text "a") (text "1")) empty_poll (morning + 2 * hour)
      waiting_world-recorded later_calls-unconfirmed later_calls-Keeps (sym waiting-canonical)

abbrev failed_warmup : Text → Text → Bool → WarmupEntry
failed_warmup id error is_blocked = record {
  auth_id = id;
  attempted_at = morning;
  outcome_at = morning + second;
  completed_at = 0;
  activated_at = 0;
  error = error;
  is_blocked = is_blocked;
  epoch_id = text "week-0";
}

-- Account "a" has been refused, account "b" is unknown to the epoch.
abbrev warmups : Warmups
warmups = record {
  warmups =
      (text "a:weekly", failed_warmup (text "a") (text "http_401") true)
      ∷ (text "a:5h", failed_warmup (text "a") (text "timeout") false)
      ∷ (text "b:weekly", failed_warmup (text "b") (text "timeout") false)
      ∷ [];
  attempts =
      record { auth_id = text "a"; at = morning }
      ∷ record { auth_id = text "b"; at = morning }
      ∷ [];
}

abbrev reset_transition : Transition
reset_transition = record { id = text "week-1"; reason = provider_reset }

apply_transition-IsCleared_example :
    IsCleared waiting_world.epoch.accounts
      (apply_transition waiting_world warmups reset_transition (λ v. v)).0.epoch.accounts
      (apply_transition waiting_world warmups reset_transition (λ v. v)).1
apply_transition-IsCleared_example =
    apply_transition-IsCleared waiting_world warmups reset_transition (λ e. cc) refl refl
