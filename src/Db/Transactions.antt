-- ===== src/Db/Transactions.antt =====
-- InsertTransactions of internal/db/transaction.go: the rows by which a transaction is looked up. The
-- reader of the ingest library and the fields of a ledger are those of stellar/go.
pub mod Inserted
use soroban_rpc.Common.{
  ℕ, zero, suc, ◌+◌, Bool, true, false, Option, none, some, List, [], ◌∷◌, ◌==◌, if◌then◌else◌,
  Outcome, ok, err, panic, ◌>>=◌,
}
use soroban_rpc.Db.Cache.{put}
use soroban_rpc.Db.Sql.{Sql}

-- ingest.LedgerTransaction, as far as it is used here.
pub record LedgerTransaction : Type 0 where
  pub is_fee_bump : Bool
  pub inner_hash : List ℕ
  pub transaction_hash : List ℕ
  pub index : ℕ

pub record IngestReader (X L : Type 0) : Type 0 where
  pub count_transactions : L → ℕ
  pub sequence_of : L → ℕ
  pub open_reader : L → Option X
  pub read : L → ℕ → Outcome X LedgerTransaction

pub data InsertError (X : Type 0) : Type 0 where
  no_statement_cache : InsertError X
  cannot_open : X → InsertError X
  failed_reading : ℕ → X → InsertError X
  cannot_insert : X → InsertError X

-- The map from hashes to transactions, each hash once.
abbrev pub TransactionMap : Type 0
TransactionMap = List (List ℕ × LedgerTransaction)

-- A fee bump is entered under its inner hash as well.
abbrev pub add_transaction : TransactionMap → LedgerTransaction → TransactionMap
add_transaction m tx =
    put (if tx.is_fee_bump then put m tx.inner_hash tx else m) tx.transaction_hash tx

abbrev pub lookup_rows : ℕ → TransactionMap → List (List ℕ × (ℕ × ℕ))
lookup_rows seq [] = []
lookup_rows seq (e ∷ es) = (e.0, (seq, e.1.index)) ∷ lookup_rows seq es

module _ {S X L : Type 0} (q : Sql S X L) (r : IngestReader X L)
    (order : TransactionMap → TransactionMap) where
  -- the loop over the transactions of the ledger
  abbrev pub read_one : L → ℕ → Outcome (InsertError X) LedgerTransaction
  read_one l i = elim (r.read l i) [
    | ok tx ↦ ok tx
    | err e ↦ err (failed_reading i e)
    | panic ↦ panic
  ]

  abbrev pub gather : L → ℕ → ℕ → TransactionMap → Outcome (InsertError X) TransactionMap
  gather l zero i m = ok m
  gather l (suc rounds) i m =
      read_one l i >>= (λ tx. gather l rounds (i + 1) (add_transaction m tx))

  abbrev pub insert_rows : L → S → TransactionMap → Outcome (InsertError X) S
  insert_rows l s m = elim (q.insert_transactions s (lookup_rows (r.sequence_of l) (order m))) [
    | ok t ↦ ok t
    | err e ↦ err (cannot_insert e)
    | panic ↦ panic
  ]

  abbrev pub insert_read : L → S → Outcome (InsertError X) S
  insert_read l s = elim (r.open_reader l) [
    | some e ↦ err (cannot_open e)
    | none ↦ gather l (r.count_transactions l) 0 [] >>= (λ m. insert_rows l s m)
  ]

  -- InsertTransactions, for a handler with a statement cache or without
  unfoldable pub insert_transactions : Bool → L → S → Outcome (InsertError X) S
  insert_transactions has_cache l s =
      if has_cache
      then (if r.count_transactions l == 0 then ok s else insert_read l s)
      else err no_statement_cache
