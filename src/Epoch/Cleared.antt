-- ===== src/Epoch/Cleared.antt =====
-- quota_epoch.go: the warmups that the confirmation of a reset leaves.
use cpa_codex_quota_schedule.Common.{
  true, false, List, [], ◌∷◌, none, some, ◌≡◌, ◌≢◌, ◌⊎◌, refl, if◌then◌else◌, inl, inr, arith,
  Bool-cases, Option-cases, All, Text, text_discrete, trim_space, Dict, lookup, insert,
  lookup-insert, same,
}
use cpa_codex_quota_schedule.Epoch.State.{
  blocked, Account, World, is_bootstrap, or_zero, empty_account,
}
use cpa_codex_quota_schedule.Epoch.Sweep.{is_held}
use cpa_codex_quota_schedule.Epoch.Rounds.{Transition}
use cpa_codex_quota_schedule.Epoch.Apply.{
  WarmupEntry, Attempt, Warmups, affected, must_clear, stays_blocked, marks_blocked, clear_entries,
  drop_attempts, block_accounts, apply_transition,
}

-- The map holds the account as blocked.
abbrev pub IsBlocked : Text → Dict Account → Type 0
IsBlocked id accounts = (a : Account) × (lookup id accounts ≡ some a) × (a.state ≡ blocked)

block_accounts-kept :
    (id : Text) (marked : Dict Text) (accounts : Dict Account)
    → IsBlocked id accounts
    → IsBlocked id (block_accounts marked accounts)
unfolding block_accounts
block_accounts-kept id [] accounts h = h
block_accounts-kept id ((k, code) ∷ marked) accounts (a, l, s) =
    let b = record (or_zero empty_account (lookup k accounts)) { state = blocked; error = code } in
    block_accounts-kept id marked (insert k b accounts) (elim (text_discrete k id) [
      | yes e ↦ (b, ground (arith, lookup-insert k id b accounts), refl)
      | no n ↦ (a, ground (arith, lookup-insert k id b accounts), s)
    ])

block_accounts-IsBlocked :
    (id : Text) (marked : Dict Text) (accounts : Dict Account)
    → is_held (lookup id marked) ≡ true
    → IsBlocked id (block_accounts marked accounts)
unfolding block_accounts lookup
block_accounts-IsBlocked id [] accounts h = absurd (ground arith)
block_accounts-IsBlocked id ((k, code) ∷ marked) accounts h =
    let b = record (or_zero empty_account (lookup k accounts)) { state = blocked; error = code } in
    elim (text_discrete k id) [
      | yes e ↦
          block_accounts-kept id marked (insert k b accounts)
            (b, ground (arith, lookup-insert k id b accounts), refl)
      | no n ↦ block_accounts-IsBlocked id marked (insert k b accounts) (ground (arith, h))
    ]

clear_entries-held :
    (t : Transition) (accounts : Dict Account) (entries : Dict WarmupEntry) (marked : Dict Text)
    (id : Text)
    → is_held (lookup id marked) ≡ true
    → is_held (lookup id (clear_entries t accounts entries marked).1) ≡ true
unfolding clear_entries
clear_entries-held t accounts [] marked id h = h
clear_entries-held t accounts ((key, e) ∷ entries) marked id h =
    let k = trim_space e.auth_id in
    let next = if marks_blocked (lookup k accounts) e then insert k e.error marked else marked in
    let r =
      clear_entries-held t accounts entries next id
        (ground (arith, h, lookup-insert k id e.error marked)) in
    ground (arith, r)

-- The entry belongs to no account, or to one that is marked.
abbrev Spared : Dict Account → Dict Text → WarmupEntry → Type 0
Spared accounts marked e =
    (lookup (trim_space e.auth_id) accounts ≡ none)
    ⊎ (is_held (lookup (trim_space e.auth_id) marked) ≡ true)

clear_entries-Spared :
    (t : Transition) (accounts : Dict Account) (entries : Dict WarmupEntry) (marked : Dict Text)
    → is_bootstrap t.reason ≡ false
    → All
        (λ x. Spared accounts (clear_entries t accounts entries marked).1 x.1)
        (clear_entries t accounts entries marked).0
unfolding clear_entries must_clear
clear_entries-Spared t accounts [] marked b = tt
clear_entries-Spared t accounts ((key, e) ∷ entries) marked b =
    let k = trim_space e.auth_id in
    let step = λ (m : Dict Text). clear_entries-Spared t accounts entries m b in
    elim (Option-cases (lookup k accounts)) [
      | inl n ↦ rw (n, clear_entries) (inl n, step marked)
      | inr (a, l) ↦ elim (Bool-cases (stays_blocked e)) [
        | inl y ↦
            let m = insert k e.error marked in
            let h =
              clear_entries-held t accounts entries m k
                (ground (arith, lookup-insert k k e.error marked)) in
            rw (l, y, clear_entries) (inr h, step m)
        | inr y ↦ rw (l, y, b, clear_entries, must_clear) (step marked)
      ]
    ]

drop_attempts-unknown :
    (accounts : Dict Account) (attempts : List Attempt)
    → All
        (λ (x : Attempt). lookup (trim_space x.auth_id) accounts ≡ none)
        (drop_attempts accounts attempts)
unfolding drop_attempts
drop_attempts-unknown accounts [] = tt
drop_attempts-unknown accounts (x ∷ attempts) =
    elim (Option-cases (lookup (trim_space x.auth_id) accounts)) [
      | inl n ↦ rw (n, drop_attempts) (n, drop_attempts-unknown accounts attempts)
      | inr (a, l) ↦ rw (l, drop_attempts) (drop_attempts-unknown accounts attempts)
    ]

-- The entry belongs to no account of the one map, or to one that the other holds as blocked.
abbrev pub Settled : Dict Account → Dict Account → WarmupEntry → Type 0
Settled before after e =
    (lookup (trim_space e.auth_id) before ≡ none) ⊎ IsBlocked (trim_space e.auth_id) after

Spared-Settled :
    (accounts : Dict Account) (marked : Dict Text) (entries : Dict WarmupEntry)
    → All (λ x. Spared accounts marked x.1) entries
    → All (λ x. Settled accounts (block_accounts marked accounts) x.1) entries
Spared-Settled accounts marked [] h = tt
Spared-Settled accounts marked ((key, e) ∷ entries) (inl n, hs) =
    (inl n, Spared-Settled accounts marked entries hs)
Spared-Settled accounts marked ((key, e) ∷ entries) (inr h, hs) = (
  inr (block_accounts-IsBlocked (trim_space e.auth_id) marked accounts h),
  Spared-Settled accounts marked entries hs,
)

-- The warmups that the confirmation of a reset leaves: no attempt of an account of the epoch, and no
-- entry of one that is not blocked afterwards.
pub record IsCleared (before after : Dict Account) (m : Warmups) : Type 0 where
  pub entries : All (λ x. Settled before after x.1) m.warmups
  pub attempts : All (λ (x : Attempt). lookup (trim_space x.auth_id) before ≡ none) m.attempts

apply_transition-accounts :
    (w : World) (m : Warmups) (t : Transition)
    → t.id ≢ []
    → same w.epoch.id t.id ≡ true
    → (apply_transition w m t (λ v. v)).0.epoch.accounts
      ≡ block_accounts (clear_entries t w.epoch.accounts m.warmups []).1 w.epoch.accounts
unfolding apply_transition affected
apply_transition-accounts w m t n y = ground arith

apply_transition-warmups :
    (w : World) (m : Warmups) (t : Transition)
    → t.id ≢ []
    → same w.epoch.id t.id ≡ true
    → is_bootstrap t.reason ≡ false
    → (apply_transition w m t (λ v. v)).1 ≡ record {
      warmups = (clear_entries t w.epoch.accounts m.warmups []).0;
      attempts = drop_attempts w.epoch.accounts m.attempts;
    }
unfolding apply_transition affected
apply_transition-warmups w m t n y b = ground arith

-- A confirmed epoch other than the first starts with a clean slate: if the transition names the epoch
-- and no other caller changes it meanwhile, the warmups that are left have no attempt of an account of
-- the epoch, and no entry of one that is not held as blocked afterwards.
pub apply_transition-IsCleared :
    (w : World) (m : Warmups) (t : Transition)
    → t.id ≢ []
    → w.epoch.id ≡ t.id
    → is_bootstrap t.reason ≡ false
    → IsCleared w.epoch.accounts
        (apply_transition w m t (λ v. v)).0.epoch.accounts
        (apply_transition w m t (λ v. v)).1
apply_transition-IsCleared w m t n e b =
    let y : same w.epoch.id t.id ≡ true = ground arith in
    let r = clear_entries t w.epoch.accounts m.warmups [] in
    rw (apply_transition-accounts w m t n y, apply_transition-warmups w m t n y b)
      (record {
        entries =
            Spared-Settled w.epoch.accounts r.1 r.0
              (clear_entries-Spared t w.epoch.accounts m.warmups [] b);
        attempts = drop_attempts-unknown w.epoch.accounts m.attempts;
      })
