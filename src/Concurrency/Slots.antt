-- ===== src/Concurrency/Slots.antt =====
-- concurrency.go: the bound on the running requests of a credential.
use cpa_codex_quota_schedule.Common.{
  ℕ, ◌+◌, ◌≤◌, Bool, true, false, List, [], ◌∷◌, none, some, ◌≡◌, ◌≢◌, inl, inr, refl, arith,
  if_neg, Text, is_empty, same, text_discrete, Dict, lookup, insert, delete, revise, Absent, IsMap,
  Bool-cases, any, lookup-delete, Time,
}
use cpa_codex_quota_schedule.Concurrency.Ledger.{
  Request, Gate, remember, remember_completed, release,
}
use cpa_codex_quota_schedule.Concurrency.Queue.{
  holds, count_if, count_active, blocked, admit, value, credential_key, least_key, lesser_key,
  old_keys, is_old, merge_request, key_of,
}

abbrev bit : Bool → ℕ
bit true = 1
bit false = 0

count_if-insert :
    (p : Request → Bool) (id : Text) (r r' : Request) (rs : Dict Request)
    → lookup id rs ≡ some r
    → count_if p (insert id r' rs) + bit (p r) ≡ count_if p rs + bit (p r')
unfolding count_if insert lookup
count_if-insert p id r r' [] e = absurd (cc)
count_if-insert p id r r' ((k, x) ∷ rs) e = elim (text_discrete k id) [
  | yes h ↦ ground arith
  | no h ↦ ground (arith, count_if-insert p id r r' rs)
]

delete-Absent : (id : Text) (rs : Dict Request) → Absent id rs → delete id rs ≡ rs
unfolding delete
delete-Absent id [] a = refl
delete-Absent id ((k, x) ∷ rs) a = rw (if_neg _ a.0, delete-Absent id rs a.1) refl

count_if-delete :
    (p : Request → Bool) (id : Text) (r : Request) (rs : Dict Request)
    → IsMap rs
    → lookup id rs ≡ some r
    → count_if p (delete id rs) + bit (p r) ≡ count_if p rs
unfolding count_if delete lookup
count_if-delete p id r [] m e = absurd (cc)
count_if-delete p id r ((k, x) ∷ rs) m e = elim (text_discrete k id) [
  | yes h ↦ ground (arith, m.0, delete-Absent k rs m.0)
  | no h ↦ ground (arith, count_if-delete p id r rs m.1)
]

-- A request without a slot that is not blocked takes one of the slots of the key, which are no more
-- than the limit afterwards, and none of another key.
pub admit_within_limit :
    (g : Gate) (id key other auth_id session : Text) (r : Request) (limit : ℕ) (now : Time)
    → lookup id g.requests ≡ some r
    → r.key ≡ []
    → key ≢ []
    → other ≢ key
    → blocked g key (some id) limit now ≡ false
    → let h = admit g id key auth_id session in
      ((count_active h key).0 ≡ (count_active g key).0 + 1)
      × ((count_active h key).0 ≤ limit)
      × ((count_active h other).0 ≡ (count_active g other).0)
unfolding admit blocked count_active
admit_within_limit g id key other auth_id session r limit now e f n d b =
    let r' = record r { key = key; auth_id = auth_id; session_key = session } in
    (
      ground (arith, count_if-insert (holds key) id r r' g.requests e),
      ground (arith, count_if-insert (holds key) id r r' g.requests e),
      ground (arith, count_if-insert (holds other) id r r' g.requests e),
    )

remember-requests : (size : ℕ) (g : Gate) (id : Text) → (remember size g id).requests ≡ g.requests
unfolding remember
remember-requests size g id = ground arith

-- The end of a request that holds a slot gives exactly that slot back, and forgets the request.
pub release_frees :
    (g : Gate) (id other : Text) (r : Request)
    → IsMap g.requests
    → lookup id g.requests ≡ some r
    → r.key ≢ []
    → other ≢ r.key
    → let h = (release g id).0 in
      ((count_active h r.key).0 + 1 ≡ (count_active g r.key).0)
      × ((release g id).1 ≡ some r)
      × (lookup id h.requests ≡ none)
      × ((count_active h other).0 ≡ (count_active g other).0)
unfolding release remember_completed count_active
release_frees g id other r m e n d =
    let q = remember-requests 8192 g id in
    let c = count_if-delete (holds r.key) id r g.requests m e in
    (
      ground (arith, q, c),
      ground (arith, q),
      ground (arith, q, lookup-delete id id g.requests),
      ground (arith, q, count_if-delete (holds other) id r g.requests m e),
    )

-- If each request that passes the first test passes the second once it is revised, the second count
-- is not smaller.
count_if-le :
    (p q : Request → Bool) (f : Request → Request) (rs : Dict Request)
    → ((r : Request) → bit (p r) ≤ bit (q (f r)))
    → count_if p rs ≤ count_if q (revise (λ id r. some (f r)) rs)
unfolding count_if revise
count_if-le p q f [] h = omega arith
count_if-le p q f ((id, r) ∷ rs) h = ground (arith, h r, count_if-le p q f rs h)

is_old-old_keys :
    (m : Dict Text) (key a : Text) (k : Text) (aliases : List Text)
    → any (same a) aliases ≡ true
    → lookup a m ≡ some k
    → k ≢ []
    → k ≢ key
    → is_old (old_keys m key aliases) k ≡ true
unfolding old_keys
is_old-old_keys m key a k [] x e n d = absurd (cc)
is_old-old_keys m key a k (b ∷ more) x e n d = ground (arith, is_old-old_keys m key a k more)

merged-holds :
    (m : Dict Text) (key a k : Text) (aliases : List Text) (r : Request)
    → any (same a) aliases ≡ true
    → lookup a m ≡ some k
    → k ≢ []
    → bit (holds k r) ≤ bit (holds key (merge_request (old_keys m key aliases) key r))
unfolding merge_request
merged-holds m key a k aliases r x e n = elim (text_discrete k key) [
  | yes h ↦ ground arith
  | no h ↦ ground (arith, is_old-old_keys m key a k aliases x e n h)
]

least_key-keeps :
    (m : Dict Text) (aliases : List Text) (key : Text)
    → is_empty key ≡ false
    → is_empty (least_key m key aliases) ≡ false
unfolding least_key
least_key-keeps m [] key n = n
least_key-keeps m (a ∷ more) key n =
    least_key-keeps m more (lesser_key (value (lookup a m)) key) (ground arith)

least_key-finds :
    (m : Dict Text) (a k : Text) (aliases : List Text) (key : Text)
    → any (same a) aliases ≡ true
    → lookup a m ≡ some k
    → k ≢ []
    → is_empty (least_key m key aliases) ≡ false
unfolding least_key
least_key-finds m a k [] key x e n = absurd (cc)
least_key-finds m a k (b ∷ more) key x e n = elim (Bool-cases (same a b)) [
  | inl h ↦ least_key-keeps m more (lesser_key (value (lookup b m)) key) (ground arith)
  | inr h ↦ least_key-finds m a k more (lesser_key (value (lookup b m)) key) (ground arith) e n
]

-- Learning another alias of a credential does not reset its count: the key that the aliases get has
-- at least the running requests of every key that one of them had.
pub key_of_keeps_count :
    (g : Gate) (a k : Text) (aliases : List Text)
    → any (same a) aliases ≡ true
    → lookup a g.aliases ≡ some k
    → k ≢ []
    → (count_active g k).0 ≤ (count_active (key_of g aliases).0 (key_of g aliases).1).0
unfolding key_of count_active credential_key
key_of_keeps_count g a k aliases x e n =
    let key = credential_key g.aliases aliases in
    let c =
      count_if-le (holds k) (holds key) (merge_request (old_keys g.aliases key aliases) key)
        g.requests (λ r. merged-holds g.aliases key a k aliases r x e n) in
    ground (arith, c, least_key-finds g.aliases a k aliases [] x e n)
