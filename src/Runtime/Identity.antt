-- ===== src/Runtime/Identity.antt =====
-- runtime.go, adq_runtime.go, concurrency.go: the names of a credential. CPA knows it by an auth id
-- and by an auth index; the runtime keeps its quota under one of them and a map from the index to
-- the id.
use cpa_codex_quota_schedule.Common.{
  Bool, not, ◌&&◌, ◌||◌, List, [], ◌∷◌, ◌++◌, Option, none, some, if◌then◌else◌, Text, text,
  is_empty, same, trim_space, Dict, lookup,
}
use cpa_codex_quota_schedule.Quota.{QuotaSnapshot}

pub record Inventory : Type 0 where
  pub quotas : Dict QuotaSnapshot
  pub identities : Dict Text

abbrev pub text_of : Option Text → Text
text_of none = []
text_of (some t) = t

abbrev pub or_else {ℓ} : {A : Type ℓ} → Option A → Option A → Option A
or_else none o = o
or_else (some x) o = some x

-- The text if it is not empty.
abbrev pub if_set : Text → Option Text
if_set [] = none
if_set (c ∷ t) = some (c ∷ t)

-- The auth id of the quota that is kept under the name.
abbrev pub quota_auth_id : Option QuotaSnapshot → Option Text
quota_auth_id none = none
quota_auth_id (some s) = if_set (trim_space s.auth_id)

abbrev pub named {ℓ} : {A : Type ℓ} → Text → Option A → Option A
named [] o = none
named (c ∷ t) o = o

abbrev pub has_name : Text → Text → QuotaSnapshot → Bool
has_name key id s =
    (not (is_empty key) && same (trim_space s.auth_id) key)
    || (not (is_empty id) && same (trim_space s.auth_index) id)

-- The quotas by their own names. A name may fit several quotas; Go visits them in no fixed order.
unfoldable pub scan_ids : Dict QuotaSnapshot → Text → Text → Option Text
scan_ids [] id index = none
scan_ids ((k, s) ∷ quotas) id index =
    let rest = scan_ids quotas id index in
    let canonical = trim_space s.auth_id in
    if is_empty canonical
    then rest
    else (if (not (is_empty id) && (same canonical id || same (trim_space s.auth_index) id))
          || (not (is_empty index) && same (trim_space s.auth_index) index)
        then some canonical
        else rest)

abbrev pub default : Text → Option Text → Text
default t none = t
default t (some u) = u

unfoldable pub canonical_auth_id : Inventory → Text → Text → Text
canonical_auth_id inv raw_id raw_index =
    let id = trim_space raw_id in
    let index = trim_space raw_index in
    default id (
      or_else (named id (quota_auth_id (lookup id inv.quotas))) (
        or_else (named index (quota_auth_id (lookup index inv.quotas))) (
          or_else (named id (if_set (trim_space (text_of (lookup id inv.identities))))) (
            or_else (named index (if_set (trim_space (text_of (lookup index inv.identities)))))
              (scan_ids inv.quotas id index)))))

unfoldable pub scan_quotas : Dict QuotaSnapshot → Text → Text → Option QuotaSnapshot
scan_quotas [] id index = none
scan_quotas ((k, s) ∷ quotas) id index =
    let rest = scan_quotas quotas id index in if has_name id index s then some s else rest

unfoldable pub lookup_quota : Inventory → Text → Text → Option QuotaSnapshot
lookup_quota inv raw_id raw_index =
    let id = trim_space raw_id in
    let index = trim_space raw_index in
    let canonical = canonical_auth_id inv id index in
    or_else (named id (lookup id inv.quotas)) (
      or_else (named index (lookup index inv.quotas)) (
        or_else
          (if same canonical id || same canonical index
            then none
            else named canonical (lookup canonical inv.quotas))
          (scan_quotas inv.quotas id index)))

abbrev pub quota_index : Option QuotaSnapshot → Text
quota_index none = []
quota_index (some s) = s.auth_index

abbrev pub or_text : Text → Text → Text
or_text [] u = u
or_text (c ∷ t) u = c ∷ t

abbrev pub index_alias : Text → List Text
index_alias [] = []
index_alias (c ∷ t) = (text "index:" ++ c ∷ t) ∷ []

-- The names under which the requests of a credential are counted.
unfoldable pub concurrency_aliases : Inventory → Text → Text → List Text
concurrency_aliases inv id index =
    let canonical = canonical_auth_id inv id index in
    let own =
      if not (is_empty id) && not (same id canonical) then (text "auth:" ++ id) ∷ [] else [] in
    (text "auth:" ++ canonical) ∷ own
    ++ index_alias (or_text (quota_index (lookup_quota inv id index)) index)
