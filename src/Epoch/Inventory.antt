-- ===== src/Epoch/Inventory.antt =====
-- quota_epoch.go: what is left of a map from which the accounts outside an inventory are deleted.
use cpa_codex_quota_schedule.Common.{
  true, [], ◌∷◌, ◌≡◌, refl, arith, Text, text_discrete, Dict, lookup, revise,
}
use cpa_codex_quota_schedule.Epoch.Sweep.{is_held, in_inventory}

-- The inventory has the account.
abbrev pub IsHeld : Text → Dict Text → Type 0
IsHeld id inventory = is_held (lookup id inventory) ≡ true

pub lookup-in_inventory :
    {A : Type 0} (id : Text) (inventory : Dict Text) (m : Dict A)
    → IsHeld id inventory
    → lookup id (revise (in_inventory inventory) m) ≡ lookup id m
unfolding lookup revise
lookup-in_inventory id inventory [] h = refl
lookup-in_inventory id inventory ((k, a) ∷ m) h = elim (text_discrete k id) [
  | yes e ↦ ground (arith, e, h)
  | no n ↦ ground (arith, lookup-in_inventory id inventory m h)
]
