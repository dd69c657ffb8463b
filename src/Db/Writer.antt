-- ===== src/Db/Writer.antt =====
-- The writer of ledger entries of internal/db/ledgerentry.go, which batches its updates.
pub mod Plan
pub mod Flush
pub mod Others
pub mod Track
pub mod Tracks
pub mod Calls
pub mod Writes
use soroban_rpc.Common.{
  ℕ, Bool, true, false, Option, none, some, List, [], ◌∷◌, leb, length, if◌then◌else◌, Outcome, ok,
  err, panic, ◌>>=◌,
}
use soroban_rpc.Db.Cache.{CacheWriteTx, new_write_tx, put, write_upsert, write_delete}
use soroban_rpc.Db.Sql.{Sql}
use soroban_rpc.Db.Xdr.{Xdr}

-- keyToEntryBatch: each key once; `none`, the nil of the source, is a deletion.
abbrev pub Batch : Type 0 → Type 0
Batch E = List (List ℕ × Option E)

-- ledgerEntryWriter; `table` is what the transaction behind its statement cache sees.
pub record EntryWriter (S E : Type 0) : Type 0 where
  pub table : S
  pub key_to_entry_batch : Batch E
  pub cache_tx : CacheWriteTx
  pub max_batch_size : ℕ

abbrev pub new_entry_writer : {S E : Type 0} → S → ℕ → EntryWriter S E
new_entry_writer s size = record {
  table = s;
  key_to_entry_batch = [];
  cache_tx = new_write_tx;
  max_batch_size = size;
}

-- The write of the batch that UpsertLedgerEntry and DeleteLedgerEntry share.
abbrev pub enter : {S E : Type 0} → List ℕ → Option E → EntryWriter S E → EntryWriter S E
enter key update w = record w { key_to_entry_batch = put w.key_to_entry_batch key update }

-- What the first loop of `flush` gathers.
pub record Planned : Type 0 where
  pub upserts : List (List ℕ × List ℕ)
  pub cache_upserts : List (List ℕ × List ℕ)
  pub delete_keys : List (List ℕ)

abbrev pub cache_upsert_all : CacheWriteTx → List (List ℕ × List ℕ) → CacheWriteTx
cache_upsert_all c [] = c
cache_upsert_all c (u ∷ us) = cache_upsert_all (write_upsert c u.0 u.1) us

abbrev pub cache_delete_all : CacheWriteTx → List (List ℕ) → CacheWriteTx
cache_delete_all c [] = c
cache_delete_all c (key ∷ keys) = cache_delete_all (write_delete c key) keys

module _ {K E X : Type 0} (x : Xdr K E X) where
  abbrev pub plan_upsert : List ℕ → E → List ℕ → Planned → Planned
  plan_upsert key e bytes p = record {
    upserts = (key, bytes) ∷ p.upserts;
    cache_upserts = if x.is_config e then (key, bytes) ∷ p.cache_upserts else p.cache_upserts;
    delete_keys = p.delete_keys;
  }

  abbrev pub plan : Batch E → Outcome X Planned
  plan [] = ok (record { upserts = []; cache_upserts = []; delete_keys = [] })
  plan ((key, some e) ∷ rest) =
      x.encode_entry e >>= (λ bytes. plan rest >>= (λ p. ok (plan_upsert key e bytes p)))
  plan ((key, none) ∷ rest) =
      plan rest >>= (λ p. ok (record p { delete_keys = key ∷ p.delete_keys }))

module _ {S E X L : Type 0} (q : Sql S X L) where
  -- the two statements of `flush`, each left out where there is nothing to write
  abbrev pub exec_upserts :
      List (List ℕ × List ℕ)
      → List (List ℕ × List ℕ)
      → EntryWriter S E
      → Outcome X (EntryWriter S E)
  exec_upserts [] cached w = ok w
  exec_upserts (r ∷ rows) cached w =
      q.replace_entries w.table (r ∷ rows)
      >>= (λ t. ok (record w { table = t; cache_tx = cache_upsert_all w.cache_tx cached }))

  abbrev pub exec_deletes : List (List ℕ) → EntryWriter S E → Outcome X (EntryWriter S E)
  exec_deletes [] w = ok w
  exec_deletes (key ∷ keys) w =
      q.delete_entries w.table (key ∷ keys)
      >>= (λ t. ok (record w { table = t; cache_tx = cache_delete_all w.cache_tx (key ∷ keys) }))

-- `order` is the order in which Go meets the keys of the batch.
module _ {S K E X L : Type 0} (q : Sql S X L) (x : Xdr K E X) (order : Batch E → Batch E) where
  -- flush
  unfoldable pub flush : EntryWriter S E → Outcome X (EntryWriter S E)
  flush w = plan x (order w.key_to_entry_batch) >>= (λ p.
      exec_upserts q p.upserts p.cache_upserts (record w { key_to_entry_batch = [] })
      >>= (λ v. exec_deletes q p.delete_keys v))

  -- maybeFlush
  unfoldable pub maybe_flush : EntryWriter S E → Outcome X (EntryWriter S E)
  unfolding flush
  maybe_flush w = if leb w.max_batch_size (length w.key_to_entry_batch) then flush w else ok w

  -- UpsertLedgerEntry and DeleteLedgerEntry
  unfoldable pub upsert_ledger_entry : EntryWriter S E → E → Outcome X (EntryWriter S E)
  unfolding maybe_flush
  upsert_ledger_entry w e =
      x.entry_key e >>= (λ k. x.encode_key k >>= (λ key. maybe_flush (enter key (some e) w)))

  unfoldable pub delete_ledger_entry : EntryWriter S E → K → Outcome X (EntryWriter S E)
  unfolding maybe_flush
  delete_ledger_entry w k = x.encode_key k >>= (λ key. maybe_flush (enter key none w))
