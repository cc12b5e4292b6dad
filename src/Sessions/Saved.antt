-- ===== src/Sessions/Saved.antt =====
-- balanced_session.go: the table saved and restored, and a conversation bound and looked up.
use cpa_codex_quota_schedule.Common.{
  ℕ, ◌+◌, ◌≤◌, true, false, not, ◌&&◌, [], ◌∷◌, ◌++◌, none, some, leb, ◌≡◌, ◌≢◌, inl, inr, refl,
  sym, ap, ◌∙◌, arith, Text, is_empty, text_discrete, Dict, lookup, insert, revise, Absent, IsMap,
  lookup-insert_self, Time, length, All, Bool-cases, Option-cases, if_neg, length-append,
}
use mathlib.Core.List.{append_assoc, append-nil}
use cpa_codex_quota_schedule.Sessions.Table.{
  Binding, Host, Table, session_limit, session_valid, session, bind_session, make_room,
  saved_binding, valid_only, take_saved, snapshot_sessions, is_hash, restore_binding,
  restore_bindings, restore_sessions,
}

-- A row of a saved table that a restore accepts while its lease is valid.
abbrev IsGood : Text × Binding → Type 0
IsGood e = (is_hash e.0 && not (is_empty e.1.auth_id)) ≡ true

insert-new :
    (k : Text) (b : Binding) (m : Dict Binding)
    → lookup k m ≡ none
    → insert k b m ≡ m ++ (k, b) ∷ []
unfolding insert lookup
insert-new k b [] e = refl
insert-new k b ((j, c) ∷ m) e = elim (text_discrete j k) [
  | yes d ↦ absurd (ground arith)
  | no d ↦ rw (if_neg _ d) (ap (λ r. (j, c) ∷ r) (insert-new k b m (ground arith)))
]

Absent-append :
    (k j : Text) (b : Binding) (m saved : Dict Binding)
    → IsMap (m ++ (k, b) ∷ saved)
    → lookup k m ≡ none
unfolding lookup
Absent-append k j b [] saved h = refl
Absent-append k j b ((i, c) ∷ m) saved h =
    rw (if_neg _ (Absent-later m h.0)) (Absent-append k j b m saved h.1)
  where
    Absent-later : (m : Dict Binding) → Absent i (m ++ (k, b) ∷ saved) → i ≢ k
    Absent-later [] a = λ e. a.0 (sym e)
    Absent-later (e ∷ m) a = Absent-later m a.1

IsMap-drop :
    (k : Text) (b : Binding) (m saved : Dict Binding)
    → IsMap (m ++ (k, b) ∷ saved)
    → IsMap (m ++ saved)
IsMap-drop k b [] saved h = h.1
IsMap-drop k b ((i, c) ∷ m) saved h = (Absent-drop m h.0, IsMap-drop k b m saved h.1)
  where
    Absent-drop : (m : Dict Binding) → Absent i (m ++ (k, b) ∷ saved) → Absent i (m ++ saved)
    Absent-drop [] a = a.1
    Absent-drop (e ∷ m) a = (a.0, Absent-drop m a.1)

restore_bindings-append :
    (h : Host) (now : Time) (saved m : Dict Binding)
    → IsMap (m ++ saved)
    → length (m ++ saved) ≤ session_limit
    → All IsGood saved
    → restore_bindings h now saved m ≡ m ++ revise (valid_only h now) saved
unfolding restore_bindings revise
restore_bindings-append h now [] m k l g = sym (append-nil m)
restore_bindings-append h now ((j, b) ∷ saved) m k l g =
    elim (Bool-cases (session_valid h j b now)) [
      | inl y ↦
          let n = Absent-append j j b m saved k in
          let s : leb session_limit (length m) ≡ false =
            ground (arith, l, length-append m ((j, b) ∷ saved)) in
          let q : restore_binding m j b ≡ m ++ (j, b) ∷ [] =
            (unfold restore_binding in rw (n, restore_binding, s) (insert-new j b m n)) in
          let good : (is_hash j && not (is_empty b.auth_id) && session_valid h j b now) ≡ true =
            ground (arith, g.0) in
          let r : revise (valid_only h now) ((j, b) ∷ saved)
              ≡ (j, b) ∷ revise (valid_only h now) saved =
            ground (arith, y) in
          rw (good, restore_bindings, q, r)
            (restore_bindings-append h now saved (m ++ (j, b) ∷ [])
                (rw (append_assoc m ((j, b) ∷ []) saved) k)
                (rw (append_assoc m ((j, b) ∷ []) saved) l) g.1
              ∙ append_assoc m ((j, b) ∷ []) (revise (valid_only h now) saved))
      | inr y ↦
          let bad : (is_hash j && not (is_empty b.auth_id) && session_valid h j b now) ≡ false =
            ground (arith, y) in
          let l' : length (m ++ saved) ≤ session_limit =
            omega (arith, l, length-append m ((j, b) ∷ saved), length-append m saved) in
          let r : revise (valid_only h now) ((j, b) ∷ saved) ≡ revise (valid_only h now) saved =
            ground (arith, y) in
          rw (bad, restore_bindings, r)
            (restore_bindings-append h now saved m (IsMap-drop j b m saved k) l' g.1)
    ]

Absent-saved :
    (h : Host) (now : Time) (count : ℕ) (k : Text) (m : Dict Binding)
    → Absent k m
    → Absent k (take_saved h now count m)
unfolding take_saved
Absent-saved h now count k [] a = tt
Absent-saved h now count k ((j, b) ∷ m) a =
    ground (arith, Absent-saved h now count k m a.1, Absent-saved h now (count + 1) k m a.1)

take_saved-IsMap :
    (h : Host) (now : Time) (count : ℕ) (m : Dict Binding)
    → IsMap m
    → IsMap (take_saved h now count m)
unfolding take_saved
take_saved-IsMap h now count [] k = tt
take_saved-IsMap h now count ((j, b) ∷ m) k = ground (
  arith,
  take_saved-IsMap h now count m k.1,
  take_saved-IsMap h now (count + 1) m k.1,
  Absent-saved h now (count + 1) j m k.0,
)

take_saved-length :
    (h : Host) (now : Time) (count : ℕ) (m : Dict Binding)
    → count ≤ session_limit
    → length (take_saved h now count m) + count ≤ session_limit
unfolding take_saved
take_saved-length h now count [] l = omega (arith, l)
take_saved-length h now count ((j, b) ∷ m) l = elim (Bool-cases (leb session_limit count)) [
  | inl e ↦ rw e (omega arith)
  | inr e ↦ ground (arith, take_saved-length h now count m l, take_saved-length h now (count + 1) m)
]

-- A conversation is saved with a lease that counts at once.
saved_binding-valid :
    (h : Host) (now : Time) (k : Text) (b c : Binding)
    → saved_binding h now k b ≡ some c
    → (session_valid h k c now ≡ true) × (is_empty c.auth_id ≡ false)
unfolding session_valid
saved_binding-valid h now k b c e = ground arith

take_saved-IsGood :
    (h : Host) (now : Time) (count : ℕ) (m : Dict Binding)
    → All (λ e. is_hash e.0 ≡ true) m
    → All IsGood (take_saved h now count m)
unfolding take_saved
take_saved-IsGood h now count [] a = tt
take_saved-IsGood h now count ((j, b) ∷ m) a = elim (Option-cases (saved_binding h now j b)) [
  | inl n ↦ ground (arith, take_saved-IsGood h now count m a.1)
  | inr (c, e) ↦
      ground (arith, saved_binding-valid h now j b c e, take_saved-IsGood h now (count + 1) m a.1)
]

-- At the instant of the save every saved row is valid.
take_saved-valid :
    (h : Host) (now : Time) (count : ℕ) (m : Dict Binding)
    → revise (valid_only h now) (take_saved h now count m) ≡ take_saved h now count m
unfolding take_saved revise
take_saved-valid h now count [] = refl
take_saved-valid h now count ((j, b) ∷ m) = elim (Option-cases (saved_binding h now j b)) [
  | inl n ↦ ground (arith, take_saved-valid h now count m)
  | inr (c, e) ↦
      ground (arith, saved_binding-valid h now j b c e, take_saved-valid h now (count + 1) m)
]

-- While affinity is on, a restore into an empty table, at any instant and whatever state the
-- host has come to, leaves exactly the saved rows whose lease is valid then, in their order; at the
-- instant of the save and with the same state of the host these are all of them. The table that was
-- saved holds each conversation once and under a hash.
pub restore-snapshot :
    (t empty : Table) (h h' : Host) (now later : Time)
    → IsMap t.sessions
    → All (λ e. is_hash e.0 ≡ true) t.sessions
    → empty.sessions ≡ []
    → h'.sticky_seconds ≢ 0
    → let saved = snapshot_sessions t h now in
      ((restore_sessions empty h' saved later).sessions ≡ revise (valid_only h' later) saved)
      × (revise (valid_only h now) saved ≡ saved)
unfolding restore_sessions snapshot_sessions
restore-snapshot t empty h h' now later m a e s =
    let q =
      restore_bindings-append h' later (take_saved h now 0 t.sessions) []
        (take_saved-IsMap h now 0 t.sessions m)
        (omega (arith, take_saved-length h now 0 t.sessions (omega arith)))
        (take_saved-IsGood h now 0 t.sessions a) in
    (ground (arith, q), take_saved-valid h now 0 t.sessions)

-- While affinity is on, a conversation that has just been bound to a named credential is found with
-- that binding, also where the table was full.
pub session-bind :
    (t : Table) (h : Host) (key auth_id index : Text) (now : Time)
    → h.sticky_seconds ≢ 0
    → key ≢ []
    → auth_id ≢ []
    → now ≢ 0
    → session (bind_session t h key auth_id index now).0 h key now
      ≡ some (record { auth_id = auth_id; auth_index = index; last_used_at = now })
unfolding session bind_session session_valid
session-bind t h key auth_id index now s k a n =
    let b : Binding = record { auth_id = auth_id; auth_index = index; last_used_at = now } in
    ground (arith, lookup-insert_self key b (make_room session_limit t.sessions key now))
