-- ===== src/Sessions/Bounds.antt =====
-- balanced_session.go: the bound on the table, and what gives way to a new conversation.
use cpa_codex_quota_schedule.Common.{
  ℕ, ◌+◌, ◌≤◌, ◌<◌, true, false, not, ◌&&◌, ◌||◌, List, [], ◌∷◌, none, some, leb, ◌≡◌, ◌⊎◌, inl,
  inr, refl, sym, ap, arith, if◌then◌else◌, Text, is_empty, text_discrete, Dict, lookup, insert,
  delete, Absent, IsMap, lookup-Absent, length-insert, length-insert_held, length-delete_held,
  length-revise, IsMap-insert, IsMap-delete, IsMap-revise, Time, before, length, All, Bool-cases,
  Option-cases, if_neg,
}
use mathlib.Core.Path.{subst}
use cpa_codex_quota_schedule.Sessions.Table.{
  Binding, Host, Table, session_limit, session_valid, valid_only, is_hash, prune_sessions,
  oldest_of, make_room, bind_session, restore_binding, restore_bindings, restore_sessions,
  balanced_time, renew_session,
}

oldest_of-least :
    (m : Dict Binding) (key : Text) (t : Time)
    → is_empty key ≡ false
    → All (λ e. is_empty e.0 ≡ false) m
    → ((oldest_of m key t).1 ≤ t) × All (λ e. (oldest_of m key t).1 ≤ e.1.last_used_at) m
unfolding oldest_of
oldest_of-least [] key t n a = (omega arith, tt)
oldest_of-least ((k, b) ∷ m) key t n a =
    let is_older = is_empty key || before b.last_used_at t in
    let r =
      oldest_of-least m (if is_older then k else key) (if is_older then b.last_used_at else t)
        (ground (arith, a.0)) a.1 in
    (ground (arith, r.0), (ground (arith, r.0), r.1))

lookup-later :
    (k j : Text) (b c : Binding) (m : Dict Binding)
    → Absent k m
    → lookup j m ≡ some c
    → lookup j ((k, b) ∷ m) ≡ some c
unfolding lookup
lookup-later k j b c m a e = elim (text_discrete k j) [
  | yes d ↦ absurd (cc (lookup-Absent k m a, d, e))
  | no d ↦ rw (if_neg _ d) e
]

-- The oldest one is the given one or one of the table.
oldest_of-found :
    (m : Dict Binding) (key : Text) (t : Time)
    → IsMap m
    → (oldest_of m key t ≡ (key, t))
      ⊎ ((b : Binding) × (lookup (oldest_of m key t).0 m ≡ some b)
          × (b.last_used_at ≡ (oldest_of m key t).1))
unfolding oldest_of
oldest_of-found [] key t h = inl refl
oldest_of-found ((k, b) ∷ m) key t h = elim (Bool-cases (is_empty key || before b.last_used_at t)) [
  | inl e ↦
      rw (e, oldest_of)
        (elim (oldest_of-found m k b.last_used_at h.1) [
          | inl q ↦ inr (b, rw q (head_found), ap (λ p. p.1) (sym q))
          | inr (c, l, q) ↦ inr (c, lookup-later k _ b c m h.0 l, q)
        ])
  | inr e ↦
      rw (e, oldest_of)
        (elim (oldest_of-found m key t h.1) [
          | inl q ↦ inl q
          | inr (c, l, q) ↦ inr (c, lookup-later k _ b c m h.0 l, q)
        ])
]
  where
    head_found : lookup k ((k, b) ∷ m) ≡ some b
    head_found = unfold lookup in ground arith

-- The oldest one of a table that is not empty.
first_found :
    (k : Text) (b : Binding) (m : Dict Binding) (now : Time)
    → IsMap ((k, b) ∷ m)
    → let o = oldest_of ((k, b) ∷ m) [] now in
      (c : Binding) × (lookup o.0 ((k, b) ∷ m) ≡ some c) × (c.last_used_at ≡ o.1)
unfolding oldest_of
first_found k b m now h = elim (oldest_of-found m k b.last_used_at h.1) [
  | inl q ↦ (b, rw q (unfold lookup in ground arith), ap (λ p. p.1) (sym q))
  | inr (c, l, q) ↦ (c, lookup-later k _ b c m h.0 l, q)
]

first_least :
    (k : Text) (b : Binding) (m : Dict Binding) (now : Time)
    → All (λ e. is_empty e.0 ≡ false) ((k, b) ∷ m)
    → All (λ e. (oldest_of ((k, b) ∷ m) [] now).1 ≤ e.1.last_used_at) ((k, b) ∷ m)
unfolding oldest_of
first_least k b m now a = oldest_of-least m k b.last_used_at a.0 a.1

given_up :
    (size : ℕ) (m : Dict Binding) (key : Text) (now : Time)
    → lookup key m ≡ none
    → size ≤ length m
    → make_room size m key now ≡ delete (oldest_of m [] now).0 m
unfolding make_room
given_up size m key now n l =
    let e : leb size (length m) ≡ true = ground arith in rw (n, make_room, e) refl

-- A full table, which holds each conversation once and none with an empty key, makes room for a new
-- conversation by giving up one that was used the longest ago.
pub make_room_lru :
    (size : ℕ) (m : Dict Binding) (key : Text) (now : Time)
    → IsMap m
    → All (λ e. is_empty e.0 ≡ false) m
    → lookup key m ≡ none
    → 0 < size
    → size ≤ length m
    → (k : Text) × (b : Binding) × (lookup k m ≡ some b)
      × (make_room size m key now ≡ delete k m)
      × All (λ e. b.last_used_at ≤ e.1.last_used_at) m
make_room_lru size [] key now h a n p l = absurd (omega arith)
make_room_lru size ((j, c) ∷ m) key now h a n p l =
    let (b, e, q) = first_found j c m now h in
    (
      _,
      b,
      e,
      given_up size ((j, c) ∷ m) key now n l,
      subst (λ t. All (λ e. t ≤ e.1.last_used_at) ((j, c) ∷ m)) (sym q) (first_least j c m now a),
    )

-- The table holds each conversation once, and no more than session_limit of them.
pub record IsTable (t : Table) : Type 0 where
  pub is_map : IsMap t.sessions
  pub bounded : length t.sessions ≤ session_limit

make_room-length :
    (m : Dict Binding) (key : Text) (now : Time)
    → IsMap m
    → length m ≤ session_limit
    → lookup key m ≡ none
    → length (make_room session_limit m key now) + 1 ≤ session_limit
unfolding make_room
make_room-length [] key now h l n = rw (n, make_room) (omega arith)
make_room-length ((j, c) ∷ m) key now h l n =
    elim (Bool-cases (leb session_limit (length ((j, c) ∷ m)))) [
      | inl e ↦
          let (b, d, q) = first_found j c m now h in
          rw (n, make_room, e) (omega (arith, l, length-delete_held _ b ((j, c) ∷ m) d))
      | inr e ↦ rw (n, make_room, e) (ground arith)
    ]

make_room-IsMap :
    (m : Dict Binding) (key : Text) (now : Time)
    → IsMap m
    → IsMap (make_room session_limit m key now)
unfolding make_room
make_room-IsMap m key now h = ground (arith, IsMap-delete (oldest_of m [] now).0 m h)

bind-length :
    (m : Dict Binding) (key : Text) (b : Binding) (now : Time)
    → IsMap m
    → length m ≤ session_limit
    → length (insert key b (make_room session_limit m key now)) ≤ session_limit
bind-length m key b now h l = elim (Option-cases (lookup key m)) [
  | inl n ↦ omega (
    arith,
    make_room-length m key now h l n,
    length-insert key b (make_room session_limit m key now),
  )
  | inr (c, e) ↦
      let q : make_room session_limit m key now ≡ m =
        (unfold make_room in rw (e, make_room) refl) in
      rw (q, length-insert_held key c b m e) l
]

restore_binding-length :
    (m : Dict Binding) (key : Text) (b : Binding)
    → IsMap m
    → length m ≤ session_limit
    → (length (restore_binding m key b) ≤ session_limit) × IsMap (restore_binding m key b)
unfolding restore_binding
restore_binding-length m key b h l = elim (Option-cases (lookup key m)) [
  | inl n ↦ rw (n, restore_binding) (ground (arith, length-insert key b m, IsMap-insert key b m h))
  | inr (c, e) ↦
      rw (e, restore_binding)
        (ground (arith, length-insert_held key c b m e, IsMap-insert key b m h))
]

restore_bindings-length :
    (h : Host) (now : Time) (saved m : Dict Binding)
    → IsMap m
    → length m ≤ session_limit
    → (length (restore_bindings h now saved m) ≤ session_limit)
      × IsMap (restore_bindings h now saved m)
unfolding restore_bindings
restore_bindings-length h now [] m k l = (l, k)
restore_bindings-length h now ((j, b) ∷ saved) m k l =
    let r = restore_binding-length m j b k l in
    elim (Bool-cases (is_hash j && not (is_empty b.auth_id) && session_valid h j b now)) [
      | inl e ↦
          rw (e, restore_bindings)
            (restore_bindings-length h now saved (restore_binding m j b) r.1 r.0)
      | inr e ↦ rw (e, restore_bindings) (restore_bindings-length h now saved m k l)
    ]

pub data Call : Type 0 where
  binds : Text → Text → Text → Time → Call
  prunes : Time → Call
  restores : Dict Binding → Time → Call
  renews : Text → Text → Time → Call

-- The rest of the runtime may change between the calls.
unfoldable pub step : Table → Host → Call → Table
step t h (binds key auth_id index now) = (bind_session t h key auth_id index now).0
step t h (prunes now) = prune_sessions t h now
step t h (restores saved now) = restore_sessions t h saved now
step t h (renews key auth_id now) = renew_session t key auth_id now

unfoldable pub run : Table → List (Host × Call) → Table
run t [] = t
run t ((h, c) ∷ cs) = run (step t h c) cs

renew-IsTable :
    (t : Table) (key auth_id : Text) (now : Time)
    → IsTable t
    → IsTable (renew_session t key auth_id now)
unfolding renew_session balanced_time
renew-IsTable t key auth_id now h = elim (Option-cases (lookup key t.sessions)) [
  | inl n ↦ record { is_map = ground (arith, h.is_map); bounded = ground (arith, h.bounded) }
  | inr (b, e) ↦
      let later = (balanced_time t now).1 in
      let c : Binding = record b { last_used_at = later } in
      record {
        is_map = ground (arith, h.is_map, IsMap-insert key c t.sessions h.is_map);
        bounded = ground (arith, h.bounded, length-insert_held key b c t.sessions e);
      }
]

step-IsTable : (t : Table) (h : Host) (c : Call) → IsTable t → IsTable (step t h c)
unfolding step bind_session prune_sessions restore_sessions
step-IsTable t h (binds key auth_id index now) k = record {
  is_map =
      IsMap-insert key _ (make_room session_limit t.sessions key now)
        (make_room-IsMap t.sessions key now k.is_map);
  bounded = bind-length t.sessions key _ now k.is_map k.bounded;
}
step-IsTable t h (prunes now) k = record {
  is_map = ground (arith, k.is_map, IsMap-revise (valid_only h now) t.sessions k.is_map);
  bounded = ground (arith, k.bounded, length-revise (valid_only h now) t.sessions);
}
step-IsTable t h (restores saved now) k =
    let r = restore_bindings-length h now saved t.sessions k.is_map k.bounded in
    record { is_map = ground (arith, r); bounded = ground (arith, r) }
step-IsTable t h (renews key auth_id now) k = renew-IsTable t key auth_id now k

-- From a table of which it holds, whatever the calls: the table holds each conversation once and no
-- more than session_limit of them.
pub run-IsTable : (t : Table) (cs : List (Host × Call)) → IsTable t → IsTable (run t cs)
unfolding run
run-IsTable t [] k = k
run-IsTable t ((h, c) ∷ cs) k = run-IsTable (step t h c) cs (step-IsTable t h c k)
