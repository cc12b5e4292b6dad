-- ===== src/Ban/Entry.antt =====
-- main.go: a quarantine entry, its normal form and its disposition. The constants of the fields
-- Kind and Phase are data types; any other text in them, which only a saved file can hold, is
-- `other_kind` and `other_phase`.
use cpa_codex_quota_schedule.Common.{
  ℕ, ◌+◌, Bool, true, false, not, ◌&&◌, ◌||◌, if◌then◌else◌, Text, text, is_empty, to_lower,
  contains, Time, Duration, is_zero, before, second, [],
}

pub data BanKind : Type 0 where
  quota probation other_kind : BanKind

pub data BanPhase : Type 0 where
  cooldown half_open other_phase : BanPhase

pub record BanEntry : Type 0 where
  pub reset_at : Time
  pub window : Text
  pub banned_at : Time
  pub kind : BanKind
  pub phase : BanPhase
  pub probe_started_at : Time
  pub probe_lease_until : Time
  pub probe_attempts : ℕ
  pub probe_owner : Text
  pub probe_dispatched : Bool
  pub probe_failures : ℕ
  pub local_backoff : Duration
  pub local_backoff_max : Duration
  pub evidence_generation : ℕ  -- uint64
  pub probe_generation : ℕ  -- uint64
  pub provisional : Bool

pub data BanDisposition : Type 0 where
  healthy in_cooldown probe_ready in_half_open : BanDisposition

abbrev pub is_half_open : BanPhase → Bool
is_half_open half_open = true
is_half_open cooldown = false
is_half_open other_phase = false

abbrev pub is_quota : BanKind → Bool
is_quota quota = true
is_quota probation = false
is_quota other_kind = false

abbrev pub is_probation : BanKind → Bool
is_probation probation = true
is_probation quota = false
is_probation other_kind = false

-- An entry without a known kind takes it from its label.
unfoldable pub kind_of : BanKind → Text → BanKind
kind_of quota w = quota
kind_of probation w = probation
kind_of other_kind w =
    if contains (to_lower w) (text "temporary fallback") || contains (to_lower w) (text "probation")
    then probation
    else quota

abbrev pub without_probe : BanEntry → BanEntry
without_probe e = record e {
  phase = cooldown;
  probe_started_at = 0;
  probe_lease_until = 0;
  probe_owner = [];
  probe_dispatched = false;
}

unfoldable pub normalize_ban_entry : BanEntry → BanEntry
normalize_ban_entry entry =
    let e = record entry { kind = kind_of entry.kind entry.window } in
    if not (is_half_open e.phase)
    then without_probe e
    else (if is_zero e.probe_started_at
        then record e { phase = cooldown; probe_lease_until = 0 }
        else e)

unfoldable pub ban_entry_disposition : BanEntry → Time → BanDisposition
ban_entry_disposition entry now =
    let e = normalize_ban_entry entry in
    if is_half_open e.phase
      && (not (is_empty e.probe_owner)
          || (not (is_zero e.probe_lease_until) && before now e.probe_lease_until))
    then in_half_open
    else (if is_zero e.reset_at || before now e.reset_at then in_cooldown else probe_ready)

abbrev pub is_probe_ready : BanDisposition → Bool
is_probe_ready probe_ready = true
is_probe_ready healthy = false
is_probe_ready in_cooldown = false
is_probe_ready in_half_open = false

unfoldable pub probe_request_matches : BanEntry → Time → Bool
probe_request_matches e requested =
    if not (is_half_open e.phase) || is_zero e.probe_started_at
    then false
    else is_zero requested || not (before (requested + second) e.probe_started_at)
