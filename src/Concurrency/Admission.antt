-- ===== src/Concurrency/Admission.antt =====
-- concurrency.go: what concurrencyAfter has checked of a request that it lets out.
mod Examples
use mathlib.Core.Path.{subst}
use cpa_codex_quota_schedule.Common.{
  ℕ, ◌+◌, ◌*◌, ◌≤◌, ◌<◌, Bool, true, false, not, ◌&&◌, ◌||◌, List, [], ◌∷◌, Option, none, some, ltb,
  leb, ◌==◌, ◌≡◌, ◌≢◌, ◌⊎◌, inl, inr, refl, sym, ap, ◌∙◌, arith, if◌then◌else◌, Text, is_empty,
  same, trim_space, text_discrete, Dict, lookup, insert, delete, lookup-insert_self, Time, Duration,
  is_zero, before, minute, Bool-cases, Option-cases,
}
use cpa_codex_quota_schedule.Recovery.Guard.{
  RecoveryEntry, RecoveryGuard, Reservation, refused, kept, claimed, reserve, reserve_entry,
  reserve_store, dispatched,
}
use cpa_codex_quota_schedule.Recovery.Lifecycle.{finish_other}
use cpa_codex_quota_schedule.Ban.Entry.{BanEntry, is_half_open, normalize_ban_entry}
use cpa_codex_quota_schedule.Ban.Store.{
  BanState, put, lookup_ban, Admission, denied, owned, bound, started, admit, admit_store,
  try_start_probe_owned,
}
use cpa_codex_quota_schedule.Ban.Completion.{
  complete_owned_probe_except, owns, mark_probe_dispatched,
}
use cpa_codex_quota_schedule.Runtime.Identity.{concurrency_aliases}
use cpa_codex_quota_schedule.Concurrency.Queue.{key_of, end_wait}
use cpa_codex_quota_schedule.Concurrency.Ledger.{Request, Gate}
use cpa_codex_quota_schedule.Concurrency.Rejected.{System}
use cpa_codex_quota_schedule.Concurrency.Slot.{
  Settings, Selected, Outcome, ignored, passed, waits, terminated, is_some, check_slot, native_slot,
  change_request, index_of, is_codex,
}
use cpa_codex_quota_schedule.Concurrency.After.{
  send, admitted, checked, routed, admit_codex, register_once, enter_quarantine, check_quota, pass,
  deadline_of, settle,
}
use cpa_codex_quota_schedule.Concurrency.Permits.{IsGuarded, IsProbed, check_quota-passed}

-- The request is in the ledger.
abbrev IsTracked : Gate → Text → Type 0
IsTracked g id = (r : Request) × (lookup id g.requests ≡ some r)

check_slot-IsTracked :
    (g : Gate) (c : Settings) (q : Selected) (now : Time)
    → q.auth_id ≢ []
    → c.enabled ≡ true
    → c.concurrency_enabled ≡ true
    → (check_slot g c q now).1 ≡ passed
    → IsTracked (check_slot g c q now).0 q.request_id
unfolding check_slot
check_slot-IsTracked g c q now a e f p =
    let (keyed, key) =
      key_of g (concurrency_aliases c.inventory q.auth_id (trim_space q.auth_index)) in
    elim (Option-cases (lookup q.request_id keyed.requests)) [
      | inl m ↦ absurd (ground arith)
      | inr (r, l) ↦ (r, ground arith)
    ]

-- What a pass that lets the request out has seen last: the check of the quota on the gate `g`.
abbrev Checked : System → System → Settings → Selected → Text → Time → Type 0
Checked s t c q index now =
    (g : Gate) × ((check_quota (record s { gate = g }) c q index now).1 ≡ passed)
    × (t ≡ send (check_quota (record s { gate = g }) c q index now).0 q index)
    × (q.auth_id ≢ [] → c.enabled ≡ true → c.concurrency_enabled ≡ true → IsTracked g q.request_id)

admitted_out :
    (r : System × Outcome) (q : Selected) (index : Text) (w : Bool)
    → (admitted r q index w).1 ≡ passed
    → (r.1 ≡ passed) × ((admitted r q index w).0 ≡ send r.0 q index)
admitted_out (s, passed) q index w p = (refl, refl)
admitted_out (s, ignored) q index w p = cc
admitted_out (s, waits) q index w p = cc
admitted_out (s, terminated x) q index w p = cc

checked_out :
    (s : System) (c : Settings) (q : Selected) (index : Text) (w : Bool) (now : Time)
    (r : Gate × Outcome)
    → (r.1 ≡ passed
        → q.auth_id ≢ []
        → c.enabled ≡ true
        → c.concurrency_enabled ≡ true
        → IsTracked r.0 q.request_id)
    → (checked s c q index w now r).1 ≡ passed
    → Checked s (checked s c q index w now r).0 c q index now
checked_out s c q index w now (g, passed) f p =
    let o = admitted_out (check_quota (record s { gate = g }) c q index now) q index w p in
    (g, o.0, o.1, f refl)
checked_out s c q index w now (g, ignored) f p = cc
checked_out s c q index w now (g, waits) f p = cc
checked_out s c q index w now (g, terminated x) f p = cc

routed_out :
    (s : System) (c : Settings) (q : Selected) (index : Text) (now : Time)
    (r : Gate × Outcome × Bool)
    → (routed s c q index now r).1 ≡ passed
    → Checked s (routed s c q index now r).0 c q index now
routed_out s c q index now (g, passed, w) p =
    checked_out s c q index w now (check_slot g c q now)
      (λ r a e f. check_slot-IsTracked g c q now a e f r) p
routed_out s c q index now (g, ignored, w) p = cc
routed_out s c q index now (g, waits, w) p = cc
routed_out s c q index now (g, terminated x, w) p = cc

admit_codex_out :
    (s : System) (c : Settings) (q : Selected) (index : Text) (start : Time) (w : Bool) (now : Time)
    → (admit_codex s c q index start w now).1 ≡ passed
    → Checked s (admit_codex s c q index start w now).0 c q index now
unfolding admit_codex
admit_codex_out s c q index start w now p =
    let r = lookup q.request_id s.gate.requests in
    let slot = native_slot s.gate c q (deadline_of r start) w now in
    let out : admit_codex s c q index start w now ≡ routed s c q index now slot = ground arith in
    subst (λ x. Checked s x.0 c q index now) (sym out)
      (routed_out s c q index now slot (sym (ap (λ x. x.1) out) ∙ p))

send-tracked :
    (v : System) (q : Selected) (index : Text)
    → IsTracked v.gate q.request_id
    → (r : Request) × (lookup q.request_id (send v q index).gate.requests ≡ some r)
      × (r.dispatched ≡ true)
unfolding send change_request
send-tracked v q index (r, l) =
    let x = record r { auth_index = index; dispatched = true } in
    (x, ground (arith, lookup-insert_self q.request_id x v.gate.requests), refl)

-- The guard, the quarantine and, if the concurrency control is on, the ledger know of the request.
abbrev pub IsAdmitted : Settings → Selected → System → Type 0
IsAdmitted c q t =
    IsGuarded t.guard q.auth_id q.request_id
    × IsProbed t.bans q.auth_id q.request_id
    × ((c.concurrency_enabled ≡ false)
        ⊎ ((r : Request) × (lookup q.request_id t.gate.requests ≡ some r) × (r.dispatched ≡ true)))

Checked-IsAdmitted :
    (s t : System) (c : Settings) (q : Selected) (index : Text) (now : Time)
    → trim_space q.auth_id ≡ q.auth_id
    → q.auth_id ≢ []
    → q.request_id ≢ []
    → c.enabled ≡ true
    → Checked s t c q index now
    → IsAdmitted c q t
unfolding send
Checked-IsAdmitted s t c q index now trimmed a n e (g, p, out, f) =
    let h = check_quota-passed (record s { gate = g }) c q index now trimmed a n e p in
    let slot : (c.concurrency_enabled ≡ false)
        ⊎ ((r : Request) × (lookup q.request_id
                (send (check_quota (record s { gate = g }) c q index now).0 q index).gate.requests
              ≡ some r)
            × (r.dispatched ≡ true)) =
      elim (Bool-cases c.concurrency_enabled) [
        | inr off ↦ inl off
        | inl on ↦ inr (
            send-tracked (check_quota (record s { gate = g }) c q index now).0 q index
              (subst (λ x. IsTracked x q.request_id) (sym h.2) (f a e on)))
      ] in
    subst (IsAdmitted c q) (sym out) (h.0, h.1, slot)

end_wait-dispatched :
    (g : Gate) (id : Text) (r : Request)
    → lookup id g.requests ≡ some r
    → r.dispatched ≡ true
    → (x : Request) × (lookup id (end_wait g id).requests ≡ some x) × (x.dispatched ≡ true)
unfolding end_wait
end_wait-dispatched g id r l d = elim (Bool-cases (r.queue_sequence == 0)) [
  | inl y ↦ (r, ground arith, d)
  | inr n ↦
      let x = record r { queue_sequence = 0; wait_keys = [] } in
      (x, ground (arith, lookup-insert_self id x g.requests), d)
]

settle-IsAdmitted :
    (s : System) (c : Settings) (q : Selected) (w : Bool)
    → IsAdmitted c q s
    → IsAdmitted c q (settle (s, passed, w) q.request_id)
settle-IsAdmitted s c q false h = h
settle-IsAdmitted s c q true (g, b, inl off) = (g, b, inl off)
settle-IsAdmitted s c q true (g, b, inr (r, l, d)) =
    (g, b, inr (end_wait-dispatched s.gate q.request_id r l d))

-- A request of Codex whose credential is known and trimmed, and which has an id: once a pass of
-- concurrencyAfter lets it out on an enabled plugin, the guard has no entry for the credential or the
-- entry is dispatched to this request; the credential is not quarantined or this request owns its
-- half-open probe, marked as dispatched; and with the concurrency control on, the ledger holds the
-- request as dispatched.
pub pass-IsAdmitted :
    (s : System) (c : Settings) (q : Selected) (is_first : Bool) (token : Option Text)
    (start now : Time) (is_waiting : Bool)
    → trim_space q.auth_id ≡ q.auth_id
    → q.auth_id ≢ []
    → q.request_id ≢ []
    → c.enabled ≡ true
    → is_codex c s q (index_of c q) ≡ true
    → (pass s c q is_first token start is_waiting now).1 ≡ passed
    → IsAdmitted c q (settle (pass s c q is_first token start is_waiting now) q.request_id)
unfolding pass
pass-IsAdmitted s c q is_first token start now is_waiting t a n e codex p =
    let index = index_of c q in
    let u = record s { gate = register_once s.gate q is_first token now } in
    let out : pass s c q is_first token start is_waiting now
        ≡ admit_codex u c q index start is_waiting now =
      ground arith in
    settled (pass s c q is_first token start is_waiting now) p (
      subst (λ x. IsAdmitted c q x.0) (sym out)
        (Checked-IsAdmitted u (admit_codex u c q index start is_waiting now).0 c q index now t a n e
          (admit_codex_out u c q index start is_waiting now (sym (ap (λ x. x.1) out) ∙ p))))
  where
    settled :
        (r : System × Outcome × Bool)
        → r.1 ≡ passed
        → IsAdmitted c q r.0
        → IsAdmitted c q (settle r q.request_id)
    settled (x, passed, w) p h = settle-IsAdmitted x c q w h
    settled (x, ignored, w) p h = cc
    settled (x, waits, w) p h = cc
    settled (x, terminated y, w) p h = cc
