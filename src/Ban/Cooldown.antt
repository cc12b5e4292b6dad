-- ===== src/Ban/Cooldown.antt =====
-- What a 429 and an anonymous probe do to a quarantine entry.
use cpa_codex_quota_schedule.Common.{
  ◌*◌, ◌^◌, ◌≤◌, ◌<◌, Bool, true, false, [], some, ◌≡◌, ◌≢◌, refl, ◌∙◌, inl, inr, arith, Text,
  lookup, insert, IsMap, IsMap-insert, lookup-insert_self, lookup-revise, trim_space, Time,
  Duration, Option-cases, if◌then◌else◌, ◌==◌, minute,
}
use cpa_codex_quota_schedule.Recovery.Guard.{next_generation}
use cpa_codex_quota_schedule.Ban.Entry.{
  cooldown, half_open, BanEntry, normalize_ban_entry, ban_entry_disposition, is_probe_ready,
}
use cpa_codex_quota_schedule.Ban.Store.{
  BanState, record_429, evidence, backed_off, set_cooldown, cooldown_over, cooled, keep_lease,
  keep_reset, keep_attempts, schedulable, Admission, denied, owned, bound, started, admit,
  admit_store, try_start_probe_owned, try_start_probe,
}
use cpa_codex_quota_schedule.Ban.Completion.{
  complete_entry, is_skipped, complete_owned_probe_except, complete_owned_probe, reopened,
}

abbrev allows : Admission → Bool
allows denied = false
allows owned = true
allows (bound e) = true
allows (started e) = true

-- The entry that a 429 leaves for a credential that was already quarantined.
again : BanEntry → BanEntry → Time → BanEntry
again e entry requested =
    cooldown_over (some e) (evidence (some e) (normalize_ban_entry entry) requested)

record_429-again :
    (s : BanState) (id : Text) (e entry : BanEntry) (requested : Time)
    → trim_space id ≡ id
    → id ≢ []
    → lookup id s.bans ≡ some e
    → (record_429 s id entry requested).bans ≡ insert id (again e entry requested) s.bans
unfolding record_429 set_cooldown again
record_429-again s id e entry requested t n l = ground arith

again-reset :
    (e entry : BanEntry) (requested : Time)
    → e.provisional ≡ false
    → e.reset_at ≤ (again e entry requested).reset_at
unfolding again cooldown_over keep_attempts keep_reset keep_lease normalize_ban_entry
again-reset e entry requested p = ground arith

again-generation :
    (e entry : BanEntry) (requested : Time)
    → (again e entry requested).evidence_generation ≡ next_generation e.evidence_generation
unfolding again cooldown_over keep_attempts keep_reset keep_lease cooled evidence backed_off
    normalize_ban_entry
again-generation e entry requested = ground arith

-- A repeated 429 does not shorten a cooldown that is not provisional, and it is new evidence: the
-- entry stays and its evidence is one generation further.
pub record_429-again_keeps :
    (s : BanState) (id : Text) (e entry : BanEntry) (requested : Time)
    → trim_space id ≡ id
    → id ≢ []
    → lookup id s.bans ≡ some e
    → e.provisional ≡ false
    → (e' : BanEntry) × (lookup id (record_429 s id entry requested).bans ≡ some e')
      × (e.reset_at ≤ e'.reset_at)
      × (e'.evidence_generation ≡ next_generation e.evidence_generation)
record_429-again_keeps s id e entry requested t n l p = (
  again e entry requested,
  rw (record_429-again s id e entry requested t n l)
      (lookup-insert_self id (again e entry requested) s.bans),
  again-reset e entry requested p,
  again-generation e entry requested,
)

again-owned :
    (e entry : BanEntry) (requested : Time) (owner : Text)
    → owner ≢ []
    → e.phase ≡ half_open
    → e.probe_started_at ≢ 0
    → e.probe_owner ≡ owner
    → ((again e entry requested).phase ≡ half_open)
      × ((again e entry requested).probe_owner ≡ owner)
      × ((again e entry requested).probe_generation ≡ e.probe_generation)
unfolding again cooldown_over keep_attempts keep_reset keep_lease normalize_ban_entry
again-owned e entry requested owner n p a o = ground arith

complete_entry-late :
    (e : BanEntry) (owner id : Text) (now : Time) (a b : Duration)
    → id ≢ []
    → e.phase ≡ half_open
    → e.probe_owner ≡ owner
    → e.probe_generation ≢ e.evidence_generation
    → complete_entry owner [] true false now a b id e ≡ some (reopened now a b e)
unfolding complete_entry is_skipped
complete_entry-late e owner id now a b i p o g = ground arith

lookup-complete_owned :
    (s : BanState) (id owner : Text) (success : Bool) (e : BanEntry) (now : Time) (a b : Duration)
    → IsMap s.bans
    → owner ≢ []
    → lookup id s.bans ≡ some e
    → lookup id (complete_owned_probe s owner success now a b).0.bans
      ≡ complete_entry owner [] success false now a b id e
unfolding complete_owned_probe complete_owned_probe_except
lookup-complete_owned s id owner success e now a b m n l =
    ground (arith, lookup-revise (complete_entry owner [] success false now a b) id s.bans m)

-- A 429 that arrives while a request's probe is in flight outweighs the probe: when the request
-- then reports success, the credential stays quarantined, in cooldown and without an owner.
pub complete-record_429_keeps :
    (s : BanState) (id owner : Text) (e entry : BanEntry) (requested now : Time)
    (retry_after max_ban : Duration)
    → IsMap s.bans
    → trim_space id ≡ id
    → id ≢ []
    → owner ≢ []
    → lookup id s.bans ≡ some e
    → e.phase ≡ half_open
    → e.probe_started_at ≢ 0
    → e.probe_owner ≡ owner
    → e.probe_generation ≡ e.evidence_generation
    → e.evidence_generation < 2 ^ 64
    → (e' : BanEntry) × (lookup id
          (complete_owned_probe
            (record_429 s id entry requested)
            owner
            true
            now
            retry_after
            max_ban).0.bans
        ≡ some e')
      × (e'.phase ≡ cooldown)
      × (e'.probe_owner ≡ [])
unfolding reopened
complete-record_429_keeps s id owner e entry requested now a b m t i n l p st o q w =
    let e' = again e entry requested in
    let kept = again-owned e entry requested owner n p st o in
    let eq = record_429-again s id e entry requested t i l in
    (
      reopened now a b e',
      lookup-complete_owned (record_429 s id entry requested) id owner true e' now a b
            (rw eq (IsMap-insert id e' s.bans m)) n (rw eq (lookup-insert_self id e' s.bans))
          ∙ complete_entry-late e' owner id now a b i kept.0 kept.1
              (ground (arith, again-generation e entry requested)),
      refl,
      refl,
    )

admit_store-allowed : (s : BanState) (k : Text) (x : Admission) → (admit_store s k x).1 ≡ allows x
admit_store-allowed s k denied = refl
admit_store-allowed s k owned = refl
admit_store-allowed s k (bound e) = refl
admit_store-allowed s k (started e) = refl

disposition-normalize :
    (e : BanEntry) (now : Time)
    → ban_entry_disposition (normalize_ban_entry e) now ≡ ban_entry_disposition e now
unfolding ban_entry_disposition normalize_ban_entry
disposition-normalize e now = ground arith

admit-anonymous :
    (e : BanEntry) (now : Time) (lease : Duration)
    → allows (admit e [] now lease) ≡ is_probe_ready (ban_entry_disposition e now)
unfolding admit
admit-anonymous e now lease = ground (arith, disposition-normalize e now)

-- For an anonymous probe of a named credential the ranking's test and the final reservation agree:
-- the reservation is allowed exactly when the credential was schedulable.
pub try_start_probe-eq-schedulable :
    (s : BanState) (id : Text) (now : Time) (lease : Duration)
    → trim_space id ≢ []
    → (try_start_probe s id now lease).1 ≡ schedulable s id now
unfolding try_start_probe try_start_probe_owned schedulable
try_start_probe-eq-schedulable s id now lease n =
    let d = if lease == 0 then 15 * minute else lease in
    elim (Option-cases (lookup (trim_space id) s.bans)) [
      | inl q ↦ ground arith
      | inr (v, q) ↦
          ground (
            arith,
            admit_store-allowed s (trim_space id) (admit v [] now d),
            admit-anonymous v now d,
          )
    ]
