-- ===== src/Epoch/Bounded/Targets.antt =====
-- quota_epoch.go: how many targets a sweep is still to ask, and how the operations on its targets
-- change that number.
use cpa_codex_quota_schedule.Common.{
  ◌+◌, ◌≤◌, Bool, true, ◌∷◌, [], some, ◌≡◌, arith, inl, inr, Option-cases, Text, trim_space, Dict,
  lookup, insert, revise, lookup-insert, All, length, length-insert_held, length-insert,
  length-revise, bit, count_where, count_where-insert_held, Time, if◌then◌else◌, not, ◌&&◌,
}
use cpa_codex_quota_schedule.Epoch.State.{Target, Poll, or_zero, empty_target, poll_of}
use cpa_codex_quota_schedule.Epoch.Inventory.{lookup-in_inventory}
use cpa_codex_quota_schedule.Epoch.Sweep.{
  is_held, is_due, in_inventory, add_target, add_targets, asks, is_refused, probe_now,
}

-- Every account of the inventory is a target.
abbrev pub Covered : Dict Text → Dict Target → Type 0
Covered inventory targets = All (λ e. is_held (lookup e.0 targets) ≡ true) inventory

-- The targets have become no more, and no more of them are due.
pub record IsShrunk (start : Time) (inventory : Dict Text) (m u : Dict Target) : Type 0 where
  pub due : count_where (is_due start) u ≤ count_where (is_due start) m
  pub number : length u ≤ length m
  pub covered : Covered inventory m → Covered inventory u

pub IsShrunk-refl : (start : Time) (i : Dict Text) (m : Dict Target) → IsShrunk start i m m
IsShrunk-refl start i m = record { due = omega arith; number = omega arith; covered = λ h. h }

IsShrunk-trans :
    (start : Time) (i : Dict Text) (m u v : Dict Target)
    → IsShrunk start i m u
    → IsShrunk start i u v
    → IsShrunk start i m v
IsShrunk-trans start i m u v a b = record {
  due = omega (arith, a.due, b.due);
  number = omega (arith, a.number, b.number);
  covered = λ h. b.covered (a.covered h);
}

held-insert :
    (k id : Text) (t : Target) (m : Dict Target)
    → is_held (lookup id m) ≡ true
    → is_held (lookup id (insert k t m)) ≡ true
held-insert k id t m h = ground (arith, lookup-insert k id t m)

pub Covered-insert :
    (k : Text) (t : Target) (i : Dict Text) (m : Dict Target)
    → Covered i m
    → Covered i (insert k t m)
Covered-insert k t [] m h = tt
Covered-insert k t ((id, x) ∷ i) m (h, hs) = (held-insert k id t m h, Covered-insert k t i m hs)

pub insert-IsShrunk :
    (start : Time) (i : Dict Text) (k : Text) (t u : Target) (m : Dict Target)
    → lookup k m ≡ some t
    → bit (is_due start u) ≤ bit (is_due start t)
    → IsShrunk start i m (insert k u m)
insert-IsShrunk start i k t u m l d = record {
  due = omega (arith, count_where-insert_held (is_due start) k t u m l, d);
  number = omega (arith, length-insert_held k t u m l);
  covered = λ h. Covered-insert k u i m h;
}

add_target-IsShrunk :
    (start : Time) (i : Dict Text) (m : Dict Target) (id index : Text)
    → is_held (lookup id m) ≡ true
    → IsShrunk start i m (add_target m id index)
unfolding add_target
add_target-IsShrunk start i m id index h = elim (Option-cases (lookup id m)) [
  | inl n ↦ absurd (ground arith)
  | inr (t, l) ↦
      rw (l, add_target)
        (insert-IsShrunk start i id t (record t { auth_id = id; auth_index = trim_space index }) m l
          (unfold is_due in omega arith))
]

pub add_targets-IsShrunk :
    (start : Time) (i j : Dict Text) (force : Bool) (m : Dict Target) (polls : Dict Poll)
    → Covered j m
    → IsShrunk start i m (add_targets j force m polls).0
unfolding add_targets
add_targets-IsShrunk start i [] force m polls c = IsShrunk-refl start i m
add_targets-IsShrunk start i ((id, index) ∷ j) force m polls (c, cs) =
    let a = add_target-IsShrunk start j m id index c in
    let b = add_target-IsShrunk start i m id index c in
    let next =
      if asks force m id && not (is_refused (poll_of polls id))
      then insert id (probe_now (poll_of polls id)) polls
      else polls in
    IsShrunk-trans start i m (add_target m id index)
      (add_targets j force (add_target m id index) next).0 b
      (add_targets-IsShrunk start i j force (add_target m id index) next (a.covered cs))

count_where-revise :
    (start : Time) (i : Dict Text) (m : Dict Target)
    → count_where (is_due start) (revise (in_inventory i) m) ≤ count_where (is_due start) m
unfolding revise count_where
count_where-revise start i [] = omega arith
count_where-revise start i ((k, t) ∷ m) = ground (arith, count_where-revise start i m)

-- The accounts of a part of an inventory.
abbrev Listed : Dict Text → Dict Text → Type 0
Listed j i = All (λ e. is_held (lookup e.0 i) ≡ true) j

Listed-cons : (k x : Text) (j i : Dict Text) → Listed j i → Listed j ((k, x) ∷ i)
unfolding lookup
Listed-cons k x [] i h = tt
Listed-cons k x ((id, y) ∷ j) i (h, hs) = (ground (arith, h), Listed-cons k x j i hs)

Listed-self : (i : Dict Text) → Listed i i
unfolding lookup
Listed-self [] = tt
Listed-self ((k, x) ∷ i) = (ground arith, Listed-cons k x i i (Listed-self i))

Covered-revise :
    (j i : Dict Text) (m : Dict Target)
    → Listed j i
    → Covered j m
    → Covered j (revise (in_inventory i) m)
Covered-revise [] i m l c = tt
Covered-revise ((id, x) ∷ j) i m (l, ls) (c, cs) =
    (rw (lookup-in_inventory id i m l) c, Covered-revise j i m ls cs)

pub revise-IsShrunk :
    (start : Time) (i : Dict Text) (m : Dict Target)
    → IsShrunk start i m (revise (in_inventory i) m)
revise-IsShrunk start i m = record {
  due = count_where-revise start i m;
  number = length-revise (in_inventory i) m;
  covered = λ h. Covered-revise i i m (Listed-self i) h;
}

-- The targets of an inventory that has not changed.
pub refresh-IsShrunk :
    (start : Time) (i : Dict Text) (force : Bool) (m : Dict Target) (polls : Dict Poll)
    → Covered i m
    → IsShrunk start i m (add_targets i force (revise (in_inventory i) m) polls).0
refresh-IsShrunk start i force m polls c =
    let r = revise-IsShrunk start i m in
    IsShrunk-trans start i m (revise (in_inventory i) m)
      (add_targets i force (revise (in_inventory i) m) polls).0 r
      (add_targets-IsShrunk start i i force (revise (in_inventory i) m) polls (r.covered c))

pub length-add_targets :
    (i : Dict Text) (force : Bool) (m : Dict Target) (polls : Dict Poll)
    → length (add_targets i force m polls).0 ≤ length i + length m
unfolding add_targets add_target
length-add_targets [] force m polls = omega arith
length-add_targets ((id, x) ∷ i) force m polls =
    let t = record (or_zero empty_target (lookup id m)) {
      auth_id = id;
      auth_index = trim_space x;
    } in
    let next =
      if asks force m id && not (is_refused (poll_of polls id))
      then insert id (probe_now (poll_of polls id)) polls
      else polls in
    omega (arith, length-add_targets i force (add_target m id x) next, length-insert id t m)

held-add_targets :
    (id : Text) (i : Dict Text) (force : Bool) (m : Dict Target) (polls : Dict Poll)
    → is_held (lookup id m) ≡ true
    → is_held (lookup id (add_targets i force m polls).0) ≡ true
unfolding add_targets add_target
held-add_targets id [] force m polls h = h
held-add_targets id ((k, x) ∷ i) force m polls h =
    let t = record (or_zero empty_target (lookup k m)) { auth_id = k; auth_index = trim_space x } in
    let next =
      if asks force m k && not (is_refused (poll_of polls k))
      then insert k (probe_now (poll_of polls k)) polls
      else polls in
    held-add_targets id i force (add_target m k x) next (held-insert k id t m h)

pub Covered-add_targets :
    (i : Dict Text) (force : Bool) (m : Dict Target) (polls : Dict Poll)
    → Covered i (add_targets i force m polls).0
unfolding add_targets add_target
Covered-add_targets [] force m polls = tt
Covered-add_targets ((id, x) ∷ i) force m polls =
    let t = record (or_zero empty_target (lookup id m)) {
      auth_id = id;
      auth_index = trim_space x;
    } in
    let next =
      if asks force m id && not (is_refused (poll_of polls id))
      then insert id (probe_now (poll_of polls id)) polls
      else polls in
    (
      held-add_targets id i force (add_target m id x) next
          (ground (arith, lookup-insert id id t m)),
      Covered-add_targets i force (add_target m id x) next,
    )
