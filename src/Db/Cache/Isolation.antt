-- ===== src/Db/Cache/Isolation.antt =====
-- What a write transaction of the cache comes to.
use soroban_rpc.Common.{
  ℕ, ◌≡◌, refl, sym, ap, ◌∙◌, inl, inr, Option, none, some, List, [], ◌∷◌, if◌then◌else◌,
  Bool-cases, Option-cases,
}
use soroban_rpc.Db.Cache.Lookup.{same_key-eq, lookup, Unique, put-lookup}
use soroban_rpc.Db.Cache.{
  same_key, TransactionalCache, CacheWriteTx, new_write_tx, write_upsert, write_delete, assign,
  commit,
}

abbrev pub updated : Option (List ℕ) → Option (Option (List ℕ)) → Option (List ℕ)
updated old none = old
updated old (some v) = v

pub commit-updated :
    (order : CacheWriteTx) (parent : TransactionalCache) (k : List ℕ)
    → Unique order
    → commit order parent k ≡ updated (parent k) (lookup order k)
commit-updated [] parent k u = refl
commit-updated (p ∷ ps) parent k u = elim (Bool-cases (same_key p.0 k)) [
  | inl hit ↦
      let gone : lookup ps k ≡ none = ap (lookup ps) (sym (same_key-eq p.0 k hit)) ∙ u.0 in
      commit-updated ps (assign parent p.0 p.1) k u.1 ∙ rw (gone, hit) refl
  | inr miss ↦ commit-updated ps (assign parent p.0 p.1) k u.1 ∙ rw miss refl
]

pub data Write : Type 0 where
  upserted : List ℕ → List ℕ → Write
  deleted : List ℕ → Write

abbrev pub write : CacheWriteTx → Write → CacheWriteTx
write w (upserted key v) = write_upsert w key v
write w (deleted key) = write_delete w key

abbrev pub write_all : CacheWriteTx → List Write → CacheWriteTx
write_all w [] = w
write_all w (x ∷ xs) = write_all (write w x) xs

abbrev pub effect : Write → List ℕ → Option (Option (List ℕ))
effect (upserted key v) k = if same_key key k then some (some v) else none
effect (deleted key) k = if same_key key k then some none else none

-- The last write of a key.
abbrev pub last_write : List Write → List ℕ → Option (Option (List ℕ))
last_write [] k = none
last_write (x ∷ xs) k = elim (last_write xs k) [ some v ↦ some v | none ↦ effect x k ]

write-lookup :
    (w : CacheWriteTx) (x : Write) (k : List ℕ)
    → lookup (write w x) k ≡ elim (effect x k) [ some v ↦ some v | none ↦ lookup w k ]
write-lookup w (upserted key v) k =
    put-lookup w key k (some v)
    ∙ elim (Bool-cases (same_key key k)) [ inl e ↦ rw e refl | inr e ↦ rw e refl ]
write-lookup w (deleted key) k =
    put-lookup w key k none
    ∙ elim (Bool-cases (same_key key k)) [ inl e ↦ rw e refl | inr e ↦ rw e refl ]

write_all-lookup :
    (w : CacheWriteTx) (xs : List Write) (k : List ℕ)
    → lookup (write_all w xs) k ≡ elim (last_write xs k) [ some v ↦ some v | none ↦ lookup w k ]
write_all-lookup w [] k = refl
write_all-lookup w (x ∷ xs) k =
    write_all-lookup (write w x) xs k ∙ elim (Option-cases (last_write xs k)) [
      | inl untouched ↦ rw untouched (write-lookup w x k)
      | inr written ↦ rw written.1 refl
    ]

-- After any upserts and deletes of a new write transaction and its commit, in whatever order the
-- updates are met, a key holds what its last write gave it, nothing if that was a deletion, and what
-- it held before if it was not written.
pub commit-write_all :
    (xs : List Write) (order : CacheWriteTx) (parent : TransactionalCache) (k : List ℕ)
    → Unique order
    → ((j : List ℕ) → lookup order j ≡ lookup (write_all new_write_tx xs) j)
    → commit order parent k ≡ updated (parent k) (last_write xs k)
commit-write_all xs order parent k u same =
    commit-updated order parent k u
    ∙ ap (updated (parent k)) (same k ∙ write_all-lookup [] xs k)
    ∙ elim (Option-cases (last_write xs k)) [
      | inl untouched ↦ rw untouched refl
      | inr written ↦ rw written.1 refl
    ]
