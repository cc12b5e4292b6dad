-- ===== src/Quota/Groups.antt =====
-- quota_priority.go: nextQuotaPriorityGroup, the best of the choices and the rest.
use cpa_codex_quota_schedule.Common.{
  Bool, true, false, List, [], ◌∷◌, ◌++◌, ◌≡◌, ◌≢◌, ◌⊎◌, refl, sym, ◌∙◌, ap, inl, inr, arith,
  if◌then◌else◌, Text, Time, any, All, Bool-cases,
}
use mathlib.Core.Path.{subst}
use mathlib.Core.List.{Perm, perm_middle}
use mathlib.Core.List.Perm
use cpa_codex_quota_schedule.Quota.Priority.{
  Candidate, Priority, Comparison, less, equal, greater, quota_priority_for, compare_quota_priority,
  is_less, is_equal, best_from, split_by, next_group,
}
use cpa_codex_quota_schedule.Quota.Order.{flip, compare-flip, compare-Composes, compare_transitive}

compare_self : (a : Priority) → compare_quota_priority a a ≡ equal
compare_self a = self-flip _ (compare-flip a a)
  where
    self-flip : (r : Comparison) → r ≡ flip r → r ≡ equal
    self-flip equal e = refl
    self-flip less e = absurd (cc)
    self-flip greater e = absurd (cc)

is_less-true : (r : Comparison) → is_less r ≡ true → r ≡ less
is_less-true less e = refl
is_less-true equal e = absurd (cc)
is_less-true greater e = absurd (cc)

is_less-false : (r : Comparison) → is_less r ≡ false → flip r ≢ greater
is_less-false less e = absurd (cc)
is_less-false equal e = λ x. cc
is_less-false greater e = λ x. cc

is_equal-true : (r : Comparison) → is_equal r ≡ true → r ≡ equal
is_equal-true less e = absurd (cc)
is_equal-true equal e = refl
is_equal-true greater e = absurd (cc)

flip-greater : (r : Comparison) → flip r ≢ greater → is_equal r ≡ false → r ≡ greater
flip-greater greater n e = refl
flip-greater equal n e = absurd (cc)
flip-greater less n e = absurd (n refl)

module _ (order : List Text) (now : Time) where
  abbrev priority : Candidate → Priority
  priority c = quota_priority_for c order now

  -- The priority is not above that of any choice.
  abbrev Bounds : Priority → List Candidate → Type 0
  Bounds p cs = All (λ c. compare_quota_priority p (priority c) ≢ greater) cs

  Bounds-trans :
      (p q : Priority) (cs : List Candidate)
      → compare_quota_priority p q ≢ greater
      → Bounds q cs
      → Bounds p cs
  Bounds-trans p q [] h b = tt
  Bounds-trans p q (c ∷ cs) h b =
      (compare_transitive p q (priority c) h b.0, Bounds-trans p q cs h b.1)

  -- The priority r is not above p nor that of any choice.
  abbrev Best : Priority → Priority → List Candidate → Type 0
  Best r p cs = (compare_quota_priority r p ≢ greater) × Bounds r cs

  Best-cons :
      (r p q : Priority) (c : Candidate) (cs : List Candidate)
      → compare_quota_priority q p ≢ greater
      → compare_quota_priority q (priority c) ≢ greater
      → Best r q cs
      → Best r p (c ∷ cs)
  Best-cons r p q c cs h k b =
      (compare_transitive r q p b.0 h, (compare_transitive r q (priority c) b.0 k, b.1))

  self-le : (p : Priority) → compare_quota_priority p p ≢ greater
  self-le p = λ x. cc (compare_self p)

  best_from-Best : (p : Priority) (cs : List Candidate) → Best (best_from order now p cs) p cs
  unfolding best_from
  best_from-Best p [] = (self-le p, tt)
  best_from-Best p (c ∷ cs) = elim (Bool-cases (is_less (compare_quota_priority (priority c) p))) [
    | inl e ↦
        let l = is_less-true _ e in
        subst (λ b. Best (best_from order now (if b then priority c else p) cs) p (c ∷ cs)) (sym e)
          (Best-cons _ p (priority c) c cs (λ x. cc) (self-le (priority c))
            (best_from-Best (priority c) cs))
    | inr e ↦
        let l = rw (sym (compare-flip (priority c) p)) at (is_less-false _ e) in
        subst (λ b. Best (best_from order now (if b then priority c else p) cs) p (c ∷ cs)) (sym e)
          (Best-cons _ p p c cs (self-le p) l (best_from-Best p cs))
  ]

  -- Some choice has the priority.
  abbrev attained : Priority → List Candidate → Bool
  attained p cs = any (λ c. is_equal (compare_quota_priority (priority c) p)) cs

  attained_self :
      (p : Priority) (c : Candidate) (cs : List Candidate)
      → p ≡ priority c
      → attained p (c ∷ cs) ≡ true
  attained_self p c cs e = rw (e, compare_self (priority c)) refl

  attained-cons :
      (p : Priority) (c : Candidate) (cs : List Candidate)
      → attained p cs ≡ true
      → attained p (c ∷ cs) ≡ true
  attained-cons p c cs e = ground arith

  best_from-attained :
      (p : Priority) (cs : List Candidate)
      → (best_from order now p cs ≡ p) ⊎ (attained (best_from order now p cs) cs ≡ true)
  unfolding best_from
  best_from-attained p [] = inl refl
  best_from-attained p (c ∷ cs) =
      elim (is_less (compare_quota_priority (priority c) p))
        as (λ b.
          let r = best_from order now (if b then priority c else p) cs in
          (r ≡ p) ⊎ (attained r (c ∷ cs) ≡ true)) [
            | true ↦ elim (best_from-attained (priority c) cs) [
              | inl e ↦ inr (attained_self _ c cs e)
              | inr e ↦ inr (attained-cons _ c cs e)
            ]
            | false ↦ elim (best_from-attained p cs) [
              | inl e ↦ inl e
              | inr e ↦ inr (attained-cons _ c cs e)
            ]
          ]

  split_by-perm :
      (p : Priority) (cs : List Candidate)
      → Perm ((split_by order now p cs).0 ++ (split_by order now p cs).1) cs
  unfolding split_by
  split_by-perm p [] = Perm.refl []
  split_by-perm p (c ∷ cs) = elim (Bool-cases (is_equal (compare_quota_priority (priority c) p))) [
    | inl e ↦ rw e (Perm.cons c (split_by-perm p cs))
    | inr e ↦ rw e (
        Perm.trans (perm_middle (split_by order now p cs).0 (split_by order now p cs).1)
          (Perm.cons c (split_by-perm p cs)))
  ]

  -- The choices of the priority, and those behind it.
  abbrev Same : Priority → List Candidate → Type 0
  Same p cs = All (λ c. compare_quota_priority (priority c) p ≡ equal) cs

  abbrev Behind : Priority → List Candidate → Type 0
  Behind p cs = All (λ c. compare_quota_priority (priority c) p ≡ greater) cs

  split_by-parts :
      (p : Priority) (cs : List Candidate)
      → Bounds p cs
      → Same p (split_by order now p cs).0 × Behind p (split_by order now p cs).1
  unfolding split_by
  split_by-parts p [] b = (tt, tt)
  split_by-parts p (c ∷ cs) b =
      elim (Bool-cases (is_equal (compare_quota_priority (priority c) p))) [
        | inl e ↦
            rw e ((is_equal-true _ e, (split_by-parts p cs b.1).0), (split_by-parts p cs b.1).1)
        | inr e ↦
            let f = flip-greater _ (rw (compare-flip (priority c) p) at b.0) e in
            rw e ((split_by-parts p cs b.1).0, (f, (split_by-parts p cs b.1).1))
      ]

  split_by-attained :
      (p : Priority) (cs : List Candidate) → attained p cs ≡ true → (split_by order now p cs).0 ≢ []
  unfolding split_by
  split_by-attained p [] e = absurd (cc)
  split_by-attained p (c ∷ cs) e =
      elim (Bool-cases (is_equal (compare_quota_priority (priority c) p))) [
        | inl f ↦ rw f (λ x. cc)
        | inr f ↦ rw f (split_by-attained p cs (rw f at e))
      ]

  -- Every choice of the first list has the priority of every other one, and goes before every one of
  -- the second list.
  abbrev pub Leads : List Candidate → List Candidate → List Candidate → Type 0
  Leads [] group remaining = Unit
  Leads (c ∷ cs) group remaining =
      (All (λ d. compare_quota_priority (priority c) (priority d) ≡ equal) group
        × All (λ d. compare_quota_priority (priority c) (priority d) ≡ less) remaining)
      × Leads cs group remaining

  Same-All :
      (p q : Priority) (cs : List Candidate)
      → compare_quota_priority q p ≡ equal
      → Same p cs
      → All (λ d. compare_quota_priority q (priority d) ≡ equal) cs
  Same-All p q [] e s = tt
  Same-All p q (c ∷ cs) e s = (
    (let f = compare-flip (priority c) p in
        let g = compare-Composes q p (priority c) in rw e at g ∙ f ∙ ap flip s.0),
    Same-All p q cs e s.1,
  )

  Behind-All :
      (p q : Priority) (cs : List Candidate)
      → compare_quota_priority q p ≡ equal
      → Behind p cs
      → All (λ d. compare_quota_priority q (priority d) ≡ less) cs
  Behind-All p q [] e s = tt
  Behind-All p q (c ∷ cs) e s = (
    (let f = compare-flip (priority c) p in
        let g = compare-Composes q p (priority c) in rw e at g ∙ f ∙ ap flip s.0),
    Behind-All p q cs e s.1,
  )

  Leads-parts :
      (p : Priority) (cs group remaining : List Candidate)
      → Same p cs
      → Same p group
      → Behind p remaining
      → Leads cs group remaining
  Leads-parts p [] group remaining s g b = tt
  Leads-parts p (c ∷ cs) group remaining s g b = (
    (Same-All p (priority c) group s.0 g, Behind-All p (priority c) remaining s.0 b),
    Leads-parts p cs group remaining s.1 g b,
  )

-- The next group of a nonempty list of choices is not empty, the group and the remaining choices
-- are together the choices, and each choice of the group has the same priority as every other
-- one of the group and goes before every remaining one.
pub next_group_lem :
    (c : Candidate) (cs : List Candidate) (order : List Text) (now : Time)
    → let g = next_group (c ∷ cs) order now in
      (g.0 ≢ []) × Perm (g.0 ++ g.1) (c ∷ cs) × Leads order now g.0 g.0 g.1
unfolding next_group
next_group_lem c cs order now =
    let first = quota_priority_for c order now in
    let best = best_from order now first cs in
    let b = best_from-Best order now first cs in
    let parts = split_by-parts order now best (c ∷ cs) b in
    (
      split_by-attained order now best (c ∷ cs) (elim (best_from-attained order now first cs) [
        | inl e ↦ attained_self order now best c cs e
        | inr e ↦ attained-cons order now best c cs e
      ]),
      split_by-perm order now best (c ∷ cs),
      Leads-parts order now best _ _ _ parts.0 parts.0 parts.1,
    )
