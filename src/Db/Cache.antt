-- ===== src/Db/Cache.antt =====
-- internal/db/transactionalcache.go: the cache of ledger entries, with snapshots for readers and
-- buffered writes. A Go map is a function from keys to what it holds, `none` where the key is missing;
-- a value nil is `some none`. Keys and values are strings, lists of bytes.
pub mod Lookup
pub mod Isolation
use soroban_rpc.Common.{
  ℕ, Bool, true, false, Option, none, some, List, [], ◌∷◌, ◌==◌, ◌&&◌, if◌then◌else◌,
}

abbrev pub same_key : List ℕ → List ℕ → Bool
same_key [] [] = true
same_key (a ∷ s) (b ∷ t) = (a == b) && same_key s t
same_key _ _ = false

abbrev pub GoMap : Type 0 → Type 0
GoMap V = List ℕ → Option V

abbrev pub assign : {V : Type 0} → GoMap V → List ℕ → Option V → GoMap V
assign m key v k = if same_key key k then v else m k

-- transactionalCache
abbrev pub TransactionalCache : Type 0
TransactionalCache = GoMap (List ℕ)

-- newTransactionalCache
abbrev pub new_transactional_cache : TransactionalCache
new_transactional_cache k = none

-- transactionalCacheReadTx, newReadTx, get and upsert
abbrev pub CacheReadTx : Type 0
CacheReadTx = GoMap (Option (List ℕ))

unfoldable pub new_read_tx : TransactionalCache → CacheReadTx
new_read_tx c k = elim (c k) [ none ↦ none | some v ↦ some (some v) ]

abbrev pub read_get : CacheReadTx → List ℕ → Option (Option (List ℕ))
read_get r key = r key

abbrev pub read_upsert : CacheReadTx → List ℕ → Option (List ℕ) → CacheReadTx
read_upsert r key v = assign r key (some v)

-- pendingUpdates of transactionalCacheWriteTx: each key once, with `none` for a deletion. The loop of
-- `commit` meets the keys in any order.
abbrev pub CacheWriteTx : Type 0
CacheWriteTx = List (List ℕ × Option (List ℕ))

-- newWriteTx, which keeps a pointer to its parent; here `commit` takes the parent.
abbrev pub new_write_tx : CacheWriteTx
new_write_tx = []

abbrev pub put : {V : Type 0} → List (List ℕ × V) → List ℕ → V → List (List ℕ × V)
put [] key v = (key, v) ∷ []
put (p ∷ ps) key v = let rest = put ps key v in if same_key p.0 key then (p.0, v) ∷ ps else p ∷ rest

-- upsert and delete
abbrev pub write_upsert : CacheWriteTx → List ℕ → List ℕ → CacheWriteTx
write_upsert w key v = put w key (some v)

abbrev pub write_delete : CacheWriteTx → List ℕ → CacheWriteTx
write_delete w key = put w key none

-- commit
abbrev pub commit : CacheWriteTx → TransactionalCache → TransactionalCache
commit [] parent = parent
commit (p ∷ ps) parent = commit ps (assign parent p.0 p.1)
