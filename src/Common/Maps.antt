-- ===== src/Common/Maps.antt =====
-- Go maps as association lists: `m[k]`, `m[k] = v`, `delete(m, k)` and a range loop that
-- rewrites or deletes the entry it visits.
use Prim.Native.Nat.{ℕ, ◌+◌, ◌≤◌}
use mathlib.Core.Path.{◌≡◌, refl, sym}
use mathlib.Core.Logic.{ite, ◌≢◌, if_pos, if_neg}
use mathlib.Core.Option.{Option, none, some}
use mathlib.Core.Bool.{Bool, true, false}
use mathlib.Core.List.{List, [], ◌∷◌}
use native.Mathlib.Omega.{arith}
use cpa_codex_quota_schedule.Common.Lists.{length, All}
use cpa_codex_quota_schedule.Common.Strings.{Text, text_discrete}

abbrev pub Dict {ℓ} : Type ℓ → Type ℓ
Dict V = List (Text × V)

abbrev pub bit : Bool → ℕ
bit true = 1
bit false = 0

module _ {ℓ} {V : Type ℓ} where
  unfoldable pub lookup : Text → Dict V → Option V
  lookup k [] = none
  lookup k ((j, v) ∷ m) = ite (text_discrete j k) (some v) (lookup k m)

  unfoldable pub insert : Text → V → Dict V → Dict V
  insert k v [] = (k, v) ∷ []
  insert k v ((j, w) ∷ m) = ite (text_discrete j k) ((k, v) ∷ m) ((j, w) ∷ insert k v m)

  unfoldable pub delete : Text → Dict V → Dict V
  delete k [] = []
  delete k ((j, w) ∷ m) = ite (text_discrete j k) (delete k m) ((j, w) ∷ delete k m)

  -- for k, v := range m { m[k] = v' or delete(m, k) }
  unfoldable pub revise : (Text → V → Option V) → Dict V → Dict V
  revise f [] = []
  revise f ((j, w) ∷ m) = elim (f j w) [ none ↦ revise f m | some v ↦ (j, v) ∷ revise f m ]

  -- A map holds each key once.
  abbrev pub Absent : Text → Dict V → Type 0
  Absent k [] = Unit
  Absent k ((j, w) ∷ m) = (j ≢ k) × Absent k m

  abbrev pub IsMap : Dict V → Type 0
  IsMap [] = Unit
  IsMap ((j, w) ∷ m) = Absent j m × IsMap m

  pub lookup-insert :
      (k j : Text) (v : V) (m : Dict V)
      → lookup j (insert k v m) ≡ ite (text_discrete k j) (some v) (lookup j m)
  unfolding lookup insert
  lookup-insert k j v [] = refl
  lookup-insert k j v ((i, w) ∷ m) = ground (arith, lookup-insert k j v m)

  pub lookup-insert_self : (k : Text) (v : V) (m : Dict V) → lookup k (insert k v m) ≡ some v
  lookup-insert_self k v m = ground (arith, lookup-insert k k v m)

  pub lookup-insert_ne :
      (k j : Text) (v : V) (m : Dict V) → k ≢ j → lookup j (insert k v m) ≡ lookup j m
  lookup-insert_ne k j v m h = ground (arith, lookup-insert k j v m)

  pub lookup-delete :
      (k j : Text) (m : Dict V) → lookup j (delete k m) ≡ ite (text_discrete k j) none (lookup j m)
  unfolding lookup delete
  lookup-delete k j [] = ground arith
  lookup-delete k j ((i, w) ∷ m) = ground (arith, lookup-delete k j m)

  pub Absent-insert :
      (k j : Text) (v : V) (m : Dict V) → k ≢ j → Absent j m → Absent j (insert k v m)
  unfolding insert
  Absent-insert k j v [] h a = (h, tt)
  Absent-insert k j v ((i, w) ∷ m) h a = ground (arith, Absent-insert k j v m)

  pub IsMap-insert : (k : Text) (v : V) (m : Dict V) → IsMap m → IsMap (insert k v m)
  unfolding insert
  IsMap-insert k v [] h = (tt, tt)
  IsMap-insert k v ((i, w) ∷ m) h = elim (text_discrete i k) [
    | yes e ↦ rw (if_pos _ e) (rw e at h.0, h.1)
    | no n ↦ rw (if_neg _ n) (Absent-insert k i v m (λ e. n (sym e)) h.0, IsMap-insert k v m h.1)
  ]

  pub Absent-revise :
      (f : Text → V → Option V) (j : Text) (m : Dict V) → Absent j m → Absent j (revise f m)
  unfolding revise
  Absent-revise f j [] a = tt
  Absent-revise f j ((i, w) ∷ m) a = ground (arith, Absent-revise f j m)

  pub IsMap-revise : (f : Text → V → Option V) (m : Dict V) → IsMap m → IsMap (revise f m)
  unfolding revise
  IsMap-revise f [] h = tt
  IsMap-revise f ((i, w) ∷ m) h = ground (arith, Absent-revise f i m, IsMap-revise f m)

  pub Absent-delete : (k j : Text) (m : Dict V) → Absent j m → Absent j (delete k m)
  unfolding delete
  Absent-delete k j [] a = tt
  Absent-delete k j ((i, w) ∷ m) a = ground (arith, Absent-delete k j m)

  pub IsMap-delete : (k : Text) (m : Dict V) → IsMap m → IsMap (delete k m)
  unfolding delete
  IsMap-delete k [] h = tt
  IsMap-delete k ((i, w) ∷ m) h = ground (arith, Absent-delete k i m, IsMap-delete k m)

  pub lookup-Absent : (k : Text) (m : Dict V) → Absent k m → lookup k m ≡ none
  unfolding lookup
  lookup-Absent k [] a = refl
  lookup-Absent k ((i, w) ∷ m) a = rw (if_neg _ a.0) (lookup-Absent k m a.1)

  -- What a revised entry reads as.
  abbrev pub revised : (Text → V → Option V) → Text → Option V → Option V
  revised f k none = none
  revised f k (some v) = f k v

  pub lookup-revise :
      (f : Text → V → Option V) (k : Text) (m : Dict V)
      → IsMap m
      → lookup k (revise f m) ≡ revised f k (lookup k m)
  unfolding lookup revise
  lookup-revise f k [] h = refl
  lookup-revise f k ((i, w) ∷ m) h =
      ground (arith, lookup-revise f k m, lookup-Absent i m h.0, lookup-Absent i (revise f m))

  pub length-insert : (k : Text) (v : V) (m : Dict V) → length (insert k v m) ≤ length m + 1
  unfolding insert
  length-insert k v [] = omega arith
  length-insert k v ((i, w) ∷ m) = ground (arith, length-insert k v m)

  pub length-delete : (k : Text) (m : Dict V) → length (delete k m) ≤ length m
  unfolding delete
  length-delete k [] = omega arith
  length-delete k ((i, w) ∷ m) = ground (arith, length-delete k m)

  pub length-insert_held :
      (k : Text) (v w : V) (m : Dict V) → lookup k m ≡ some v → length (insert k w m) ≡ length m
  unfolding insert lookup
  length-insert_held k v w [] e = absurd (cc)
  length-insert_held k v w ((i, x) ∷ m) e = elim (text_discrete i k) [
    | yes d ↦ ground arith
    | no d ↦ ground (arith, length-insert_held k v w m)
  ]

  pub length-delete_held :
      (k : Text) (v : V) (m : Dict V) → lookup k m ≡ some v → length (delete k m) + 1 ≤ length m
  unfolding delete lookup
  length-delete_held k v [] e = absurd (cc)
  length-delete_held k v ((i, x) ∷ m) e = elim (text_discrete i k) [
    | yes d ↦ ground (arith, length-delete k m)
    | no d ↦ ground (arith, length-delete_held k v m)
  ]

  pub length-revise : (f : Text → V → Option V) (m : Dict V) → length (revise f m) ≤ length m
  unfolding revise
  length-revise f [] = omega arith
  length-revise f ((i, x) ∷ m) = ground (arith, length-revise f m)

  -- How many entries pass the test.
  unfoldable pub count_where : (V → Bool) → Dict V → ℕ
  count_where p [] = 0
  count_where p ((k, v) ∷ m) = bit (p v) + count_where p m

  pub count_where-insert_held :
      (p : V → Bool) (k : Text) (v w : V) (m : Dict V)
      → lookup k m ≡ some v
      → bit (p v) + count_where p (insert k w m) ≡ bit (p w) + count_where p m
  unfolding insert lookup count_where
  count_where-insert_held p k v w [] e = absurd (cc)
  count_where-insert_held p k v w ((i, x) ∷ m) e = elim (text_discrete i k) [
    | yes d ↦ ground arith
    | no d ↦ ground (arith, count_where-insert_held p k v w m)
  ]

  pub count_where-le_length : (p : V → Bool) (m : Dict V) → count_where p m ≤ length m
  unfolding count_where
  count_where-le_length p [] = omega arith
  count_where-le_length p ((k, v) ∷ m) = ground (arith, count_where-le_length p m)

  lookup-cons :
      (k : Text) (v : V) (m a : Dict V)
      → Absent k a
      → All (λ e. lookup e.0 m ≡ some e.1) a
      → All (λ e. lookup e.0 ((k, v) ∷ m) ≡ some e.1) a
  unfolding lookup
  lookup-cons k v m [] n h = tt
  lookup-cons k v m ((j, w) ∷ a) n h =
      (rw (if_neg _ (λ e. n.0 (sym e))) h.0, lookup-cons k v m a n.1 h.1)

  -- A map that holds each key once finds each of its entries.
  pub lookup-members : (m : Dict V) → IsMap m → All (λ e. lookup e.0 m ≡ some e.1) m
  unfolding lookup
  lookup-members [] h = tt
  lookup-members ((k, v) ∷ m) h = (ground arith, lookup-cons k v m m h.0 (lookup-members m h.1))
