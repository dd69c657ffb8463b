-- ===== src/Db/Reader.antt =====
-- The read transactions of internal/db/ledgerentry.go: raw reads, through the caches or without.
pub mod Rows
pub mod Scans
pub mod Cached
pub mod Deadlock
pub mod Entries
pub mod Answers
pub mod Table
use soroban_rpc.Common.{
  ℕ, Bool, true, false, Option, none, some, List, [], ◌∷◌, ◌==◌, if◌then◌else◌, Outcome, ok, err,
  panic, ◌>>=◌,
}
use soroban_rpc.Db.Cache.{
  GoMap, assign, CacheReadTx, TransactionalCache, new_read_tx, read_get, read_upsert,
}
use soroban_rpc.Db.Sql.{Sql}
use soroban_rpc.Db.Xdr.{Xdr}
use soroban_rpc.Db.Meta.{DbCache, MetaError, get_latest_ledger_sequence}

-- ledgerEntryReadTx; `snapshot` is what its transaction sees.
pub record LedgerEntryReadTx (S : Type 0) : Type 0 where
  pub snapshot : S
  pub latest_ledger_seq_cache : ℕ
  pub cache_read_tx : Option CacheReadTx

-- NewTx and NewCachedTx, of a state of the database and its cache.
abbrev pub new_tx : {S : Type 0} → S → DbCache → LedgerEntryReadTx S
new_tx s cache = record {
  snapshot = s;
  latest_ledger_seq_cache = cache.latest_ledger_seq;
  cache_read_tx = none;
}

unfoldable pub new_cached_tx : {S : Type 0} → S → DbCache → LedgerEntryReadTx S
unfolding new_read_tx
new_cached_tx s cache = record {
  snapshot = s;
  latest_ledger_seq_cache = cache.latest_ledger_seq;
  cache_read_tx = some (new_read_tx cache.ledger_entries);
}

-- Where a raw read stands: its result, the two caches, and whether it holds the lock of the global
-- one, which it gives back when it returns.
pub record RawScan : Type 0 where
  pub found : GoMap (List ℕ)
  pub read_cache : Option CacheReadTx
  pub global_cache : DbCache
  pub locked : Bool

-- What a raw read comes to. A goroutine that takes a lock that it holds is blocked for good.
pub data RawRead (X : Type 0) : Type 0 where
  returned : RawScan → RawRead X
  failed : X → RawScan → RawRead X
  blocked : RawRead X
  read_panicked : RawRead X

-- The loop over the keys that are looked up in the cache first, and the keys it leaves to be queried.
abbrev pub found_in_cache : CacheReadTx → List (List ℕ) → GoMap (List ℕ) → GoMap (List ℕ)
found_in_cache r [] found = found
found_in_cache r (k ∷ ks) found = found_in_cache r ks (elim (read_get r k) [
  | none ↦ found
  | some none ↦ found
  | some (some v) ↦ assign found k (some v)
])

abbrev pub keys_to_query : CacheReadTx → List (List ℕ) → List (List ℕ)
keys_to_query r [] = []
keys_to_query r (k ∷ ks) =
    let rest = keys_to_query r ks in elim (read_get r k) [ none ↦ k ∷ rest | some _ ↦ rest ]

-- A row without a cache, and one with it: where the key is missing in the global cache it is added.
abbrev pub add_missing : List ℕ → List ℕ → Option (List ℕ) → TransactionalCache → TransactionalCache
add_missing key entry none entries = assign entries key (some entry)
add_missing key entry (some _) entries = entries

abbrev pub add_global : List ℕ → List ℕ → DbCache → DbCache
add_global key entry cache = record cache {
  ledger_entries = add_missing key entry (cache.ledger_entries key) cache.ledger_entries;
}

module _ {S K E X L : Type 0} (q : Sql S X L) (x : Xdr K E X) where
  abbrev pub scan_plain : List (List ℕ × List ℕ) → RawScan → RawScan
  scan_plain [] s = s
  scan_plain (r ∷ rows) s = scan_plain rows (record s { found = assign s.found r.0 (some r.1) })

  abbrev pub cache_row : CacheReadTx → List ℕ × List ℕ → RawScan → RawScan
  cache_row c r s = record s {
    found = assign s.found r.0 (some r.1);
    read_cache = some (read_upsert c r.0 (some r.1));
  }

  abbrev pub lock_row : List ℕ × List ℕ → RawScan → RawScan
  lock_row r s = record s { global_cache = add_global r.0 r.1 s.global_cache; locked = true }

  -- the loop over the rows of a cached read
  abbrev pub scan_cached : CacheReadTx → List (List ℕ × List ℕ) → RawScan → RawRead X
  scan_cached c [] s = returned s
  scan_cached c (r ∷ rows) s =
      let after = cache_row c r s in
      let c' = read_upsert c r.0 (some r.1) in
      let plain = scan_cached c' rows after in
      let config = scan_cached c' rows (lock_row r after) in
      elim (x.key_is_config r.0) [
        | panic ↦ read_panicked
        | err e ↦ failed e after
        | ok false ↦ plain
        | ok true ↦ if s.locked then blocked else config
      ]

  -- the error that ended the iteration
  abbrev pub ended_by : Option X → RawRead X → RawRead X
  ended_by (some e) (returned s) = failed e s
  ended_by _ read = read

  -- the two queries of getRawLedgerEntries: none for no keys
  abbrev pub query_plain : List (List ℕ) → S → RawScan → RawRead X
  query_plain [] t s = returned s
  query_plain (k ∷ ks) t s = elim (q.select_entries t (k ∷ ks)) [
    | ok p ↦ ended_by p.1 (returned (scan_plain p.0 s))
    | err e ↦ failed e s
    | panic ↦ read_panicked
  ]

  abbrev pub query_cached : CacheReadTx → List (List ℕ) → S → RawScan → RawRead X
  query_cached c [] t s = returned s
  query_cached c (k ∷ ks) t s = elim (q.select_entries t (k ∷ ks)) [
    | ok p ↦ ended_by p.1 (scan_cached c p.0 s)
    | err e ↦ failed e s
    | panic ↦ read_panicked
  ]

  abbrev pub read_with : Option CacheReadTx → S → DbCache → List (List ℕ) → RawRead X
  read_with none t cache keys =
      query_plain keys t
        (record { found = λ k. none; read_cache = none; global_cache = cache; locked = false })
  read_with (some c) t cache keys = query_cached c (keys_to_query c keys) t (record {
    found = found_in_cache c keys (λ k. none);
    read_cache = some c;
    global_cache = cache;
    locked = false;
  })

  -- getRawLedgerEntries
  unfoldable pub get_raw_ledger_entries : LedgerEntryReadTx S → DbCache → List (List ℕ) → RawRead X
  get_raw_ledger_entries tx cache keys = read_with tx.cache_read_tx tx.snapshot cache keys

  -- GetLatestLedgerSequence of a read transaction, which asks the database where its cache is 0
  unfoldable pub read_latest_ledger_sequence :
      LedgerEntryReadTx S → DbCache → Outcome (MetaError X) (ℕ × (LedgerEntryReadTx S × DbCache))
  unfolding get_latest_ledger_sequence
  read_latest_ledger_sequence tx cache =
      let asked =
        get_latest_ledger_sequence q tx.snapshot cache
        >>= (λ p. ok (p.0, (record tx { latest_ledger_seq_cache = p.0 }, p.1))) in
      if tx.latest_ledger_seq_cache == 0
      then asked
      else ok (tx.latest_ledger_seq_cache, (tx, cache))
