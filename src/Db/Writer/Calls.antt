-- ===== src/Db/Writer/Calls.antt =====
-- The calls of a write transaction in sequence, and what the last of them says of a key.
use soroban_rpc.Common.{
  ℕ, Option, none, some, List, [], ◌∷◌, if◌then◌else◌, Outcome, ok, err, panic, ◌>>=◌,
}
use soroban_rpc.Db.Cache.{same_key}
use soroban_rpc.Db.Sql.{Sql}
use soroban_rpc.Db.Xdr.{Xdr}
use soroban_rpc.Db.Writer.{Batch, EntryWriter, upsert_ledger_entry, delete_ledger_entry}

-- A call of a write transaction: of the writer of ledger entries, or one that adds a ledger or the
-- rows of its transactions.
pub data EntryWrite (K E L : Type 0) : Type 0 where
  upserted : E → EntryWrite K E L
  deleted : K → EntryWrite K E L
  ledger_inserted : ℕ → L → EntryWrite K E L
  transactions_inserted : List (List ℕ × (ℕ × ℕ)) → EntryWrite K E L

-- What a key holds for whoever reads the calls: the last of them that names it.
module _ {K E X L : Type 0} (x : Xdr K E X) where
  -- only the calls of the writer of ledger entries have one
  abbrev pub key_of : EntryWrite K E L → Outcome X (List ℕ)
  key_of (upserted e) = x.entry_key e >>= (λ k. x.encode_key k)
  key_of (deleted k) = x.encode_key k
  key_of (ledger_inserted n l) = panic
  key_of (transactions_inserted rows) = panic

  abbrev pub update_of : EntryWrite K E L → Option E
  update_of (upserted e) = some e
  update_of _ = none

  abbrev pub last_write : List (EntryWrite K E L) → List ℕ → Option (Option E)
  last_write [] k = none
  last_write (c ∷ cs) k = elim (last_write cs k) [
    | some v ↦ some v
    | none ↦ elim (key_of c) [
      | ok key ↦ if same_key key k then some (update_of c) else none
      | err _ ↦ none
      | panic ↦ none
    ]
  ]

module _ {S K E X L : Type 0} (q : Sql S X L) (x : Xdr K E X) (order : Batch E → Batch E) where
  abbrev pub write_one : EntryWriter S E → EntryWrite K E L → Outcome X (EntryWriter S E)
  write_one w (upserted e) = upsert_ledger_entry q x order w e
  write_one w (deleted k) = delete_ledger_entry q x order w k
  write_one w (ledger_inserted n l) =
      q.insert_ledger w.table n l >>= (λ t. ok (record w { table = t }))
  write_one w (transactions_inserted rows) =
      q.insert_transactions w.table rows >>= (λ t. ok (record w { table = t }))

  abbrev pub write_all : EntryWriter S E → List (EntryWrite K E L) → Outcome X (EntryWriter S E)
  write_all w [] = ok w
  write_all w (c ∷ cs) = write_one w c >>= (λ v. write_all v cs)
