-- ===== src/Concurrency/Elements.antt =====
-- Reading a list and a set of marks of the ledger back after one element has been written.
use cpa_codex_quota_schedule.Common.{
  ℕ, zero, suc, ◌<◌, true, List, [], ◌∷◌, ◌++◌, Option, none, some, ◌≡◌, ◌≢◌, refl, arith, Text,
  insert, length, lookup-insert, lookup-delete,
}
use cpa_codex_quota_schedule.Concurrency.Ledger.{Marks, has_mark, get_elem, set_elem, unmark}

pub length-set : (xs : List Text) (i : ℕ) (y : Text) → length (set_elem xs i y) ≡ length xs
unfolding set_elem
length-set [] i y = refl
length-set (x ∷ xs) zero y = refl
length-set (x ∷ xs) (suc i) y = omega (arith, length-set xs i y)

pub get-set_self :
    (xs : List Text) (i : ℕ) (y : Text) → i < length xs → get_elem (set_elem xs i y) i ≡ some y
unfolding get_elem set_elem
get-set_self [] i y h = absurd (omega arith)
get-set_self (x ∷ xs) zero y h = refl
get-set_self (x ∷ xs) (suc i) y h = get-set_self xs i y (omega arith)

pub get-set_ne :
    (xs : List Text) (i j : ℕ) (y : Text) → i ≢ j → get_elem (set_elem xs i y) j ≡ get_elem xs j
unfolding get_elem set_elem
get-set_ne [] i j y n = refl
get-set_ne (x ∷ xs) zero zero y n = absurd (n refl)
get-set_ne (x ∷ xs) zero (suc j) y n = refl
get-set_ne (x ∷ xs) (suc i) zero y n = refl
get-set_ne (x ∷ xs) (suc i) (suc j) y n = get-set_ne xs i j y (λ e. n (cc))

pub get-append :
    (xs : List Text) (y : Text) (i : ℕ) → i < length xs → get_elem (xs ++ y ∷ []) i ≡ get_elem xs i
unfolding get_elem
get-append [] y i h = absurd (omega arith)
get-append (x ∷ xs) y zero h = refl
get-append (x ∷ xs) y (suc i) h = get-append xs y i (omega arith)

pub get-append_last : (xs : List Text) (y : Text) → get_elem (xs ++ y ∷ []) (length xs) ≡ some y
unfolding get_elem
get-append_last [] y = refl
get-append_last (x ∷ xs) y = get-append_last xs y

pub get-bound : (xs : List Text) (i : ℕ) (y : Text) → get_elem xs i ≡ some y → i < length xs
unfolding get_elem
get-bound [] i y e = absurd (cc)
get-bound (x ∷ xs) zero y e = omega arith
get-bound (x ∷ xs) (suc i) y e = omega (arith, get-bound xs i y e)

pub has_mark-insert :
    (k j : Text) (m : Marks) → has_mark j m ≡ true → has_mark j (insert k true m) ≡ true
unfolding has_mark
has_mark-insert k j m h = ground (arith, lookup-insert k j true m)

pub has_mark-insert_self : (k : Text) (m : Marks) → has_mark k (insert k true m) ≡ true
unfolding has_mark
has_mark-insert_self k m = ground (arith, lookup-insert k k true m)

pub has_mark-unmark :
    (o : Option Text) (j : Text) (m : Marks)
    → o ≢ some j
    → has_mark j m ≡ true
    → has_mark j (unmark o m) ≡ true
unfolding has_mark
has_mark-unmark none j m n h = h
has_mark-unmark (some k) j m n h = ground (arith, lookup-delete k j m)
