-- ===== src/Concurrency/Admission/Examples.antt =====
-- The admission of a request on a credential that is recovering, at a concrete runtime.
use cpa_codex_quota_schedule.Concurrency.Slot.{
  native_slot, check_slot, change_request, leave_codex, reject_request, take_slot, wait_for,
}
use cpa_codex_quota_schedule.Concurrency.After.{
  admit_codex, register_once, check_quota, enter_quarantine, send,
}
use cpa_codex_quota_schedule.Concurrency.Queue.{
  key_of, credential_key, least_key, blocked, count_active, count_if, merge_marks, merge_request,
  old_keys, reject, rejection_of, set_aliases, start_wait, text_before, waits_before,
}
use cpa_codex_quota_schedule.Runtime.Identity.{
  concurrency_aliases, canonical_auth_id, scan_ids, lookup_quota, scan_quotas,
}
use cpa_codex_quota_schedule.Common.{
  revise, delete, insert, byte_len, contains, has_prefix, to_lower,
}
use cpa_codex_quota_schedule.Ban.Completion.{
  complete_entry, complete_owned_probe_except, count_entries, is_skipped, mark_probe_dispatched,
  owns, reopened,
}
use cpa_codex_quota_schedule.Ban.Entry.{ban_entry_disposition, kind_of, normalize_ban_entry}
use cpa_codex_quota_schedule.Ban.Store.{admit, count, lookup_ban, try_start_probe_owned}
use cpa_codex_quota_schedule.Concurrency.Ledger.{
  add_request, expire, expire_tokens, has_expired, has_mark, register,
}
use cpa_codex_quota_schedule.Recovery.Guard.{claim, lapse, reserve_entry}
use cpa_codex_quota_schedule.Recovery.Lifecycle.{
  any_entry, failed, finish_entry, finish_except, finish_other, has_any, has_auth, is_kept,
  knows_credential,
}
use cpa_codex_quota_schedule.Recovery.Retry.{recovery_retry_delay, retry_loop}
use cpa_codex_quota_schedule.Common.{
  ◌*◌, true, false, [], ◌∷◌, none, ◌≡◌, refl, arith, text, text_discrete, ℕ_discrete, lookup,
  trim_space, minute, hour,
}
use cpa_codex_quota_schedule.Recovery.Guard.{reserve, dispatched}
use cpa_codex_quota_schedule.Ban.Entry.{BanKind, BanPhase}
use cpa_codex_quota_schedule.Concurrency.Ledger.{new_request}
use cpa_codex_quota_schedule.Concurrency.Rejected.{System}
use cpa_codex_quota_schedule.Concurrency.Slot.{Settings, Selected, passed, is_codex, index_of}
use cpa_codex_quota_schedule.Concurrency.After.{pass, settle}
use cpa_codex_quota_schedule.Concurrency.Admission.{IsAdmitted, pass-IsAdmitted}

abbrev settings : Settings
settings = record {
  enabled = true;
  concurrency_enabled = true;
  limit = 1;
  mode = text "memory";
  half_open_retry = minute;
  max_ban = hour;
  probe_timeout = 15 * minute;
  detached = false;
  inventory = record { quotas = []; identities = [] };
}

abbrev selected : Selected
selected = record {
  request_id = text "r1";
  to_codex = true;
  auth_id = text "a";
  auth_index = text "1";
}

-- The credential has run out, and its next quota cycle has begun.
abbrev recovering : System
recovering = record {
  gate = record {
    requests =
        (text "r1", record (new_request (text "t1") 5) { key = text "auth:a"; auth_id = text "a" })
        ∷ [];
    tokens = (text "t1", text "r1") ∷ [];
    completed = [];
    completed_ids = [];
    completed_next = 0;
    aliases = (text "auth:a", text "auth:a") ∷ [];
    supported = true;
    waiting = 0;
    waits = 0;
    rejected = 0;
    sequence = 0;
    rejections = [];
  };
  guard =
      (
        text "a",
        record {
          auth_index = text "1";
          observed_at = 100;
          reset_at = 500;
          ready = true;
          owner = [];
          owner_auth_id = [];
          reserved_at = 0;
          dispatched = false;
          failures = 0;
          retry_at = 0;
          generation = 2;
          owner_generation = 0;
        },
      )
      ∷ [];
  bans = record {
    bans =
        (
          text "a",
          record {
            reset_at = 500;
            window = text "5h";
            banned_at = 100;
            kind = BanKind.quota;
            phase = BanPhase.cooldown;
            probe_started_at = 0;
            probe_lease_until = 0;
            probe_attempts = 0;
            probe_owner = [];
            probe_dispatched = false;
            probe_failures = 0;
            local_backoff = 0;
            local_backoff_max = 0;
            evidence_generation = 1;
            probe_generation = 0;
            provisional = false;
          },
        )
        ∷ [];
    total_429s = 1;
    probation_429s = 0;
    probe_starts = 0;
    probe_successes = 0;
    probe_failures = 0;
  };
}

passes : (pass recovering settings selected true none 0 false 600).1 ≡ passed
unfolding pass is_codex admit_codex lookup register_once text_discrete native_slot check_slot key_of
    credential_key least_key concurrency_aliases canonical_auth_id trim_space scan_ids lookup_quota
    scan_quotas revise complete_entry complete_owned_probe_except count_entries is_skipped
    mark_probe_dispatched owns reopened ban_entry_disposition kind_of normalize_ban_entry admit
    count lookup_ban try_start_probe_owned delete insert byte_len contains has_prefix to_lower
    change_request check_quota enter_quarantine index_of leave_codex reject_request send take_slot
    wait_for add_request expire expire_tokens has_expired has_mark register blocked count_active
    count_if merge_marks merge_request old_keys reject rejection_of set_aliases start_wait
    text_before waits_before claim dispatched lapse reserve reserve_entry any_entry failed
    finish_entry finish_except finish_other has_any has_auth is_kept knows_credential
    recovery_retry_delay retry_loop ℕ_discrete
passes = refl

pass-IsAdmitted_example :
    IsAdmitted settings selected
      (settle (pass recovering settings selected true none 0 false 600) (text "r1"))
unfolding trim_space is_codex
pass-IsAdmitted_example =
    pass-IsAdmitted recovering settings selected true none 0 600 false refl (λ e. ground arith)
      (λ e. ground arith) refl refl passes
