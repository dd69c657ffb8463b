-- ===== src/Db/Ledgers.antt =====
-- internal/db/ledger.go: the table of ledgers, and the trimming of it and of the transactions.
pub mod Trim
use soroban_rpc.Common.{
  ℕ, ◌+◌, ◌-◌, ◌%◌, ◌^◌, Bool, true, false, Option, none, some, List, [], ◌∷◌, leb, length,
  if◌then◌else◌, Outcome, ok, err, panic, ◌>>=◌,
}
use soroban_rpc.Db.Sql.{Sql}

-- The errors of GetLedger: that of the database, or the number of rows where more than one is found.
pub data GetLedgerError (X : Type 0) : Type 0 where
  cannot_select : X → GetLedgerError X
  multiple_entries : ℕ → GetLedgerError X

module _ {S X L : Type 0} (q : Sql S X L) where
  -- trimLedgers and trimTransactions, whose sums are of uint32
  unfoldable pub trim_ledgers : ℕ → ℕ → S → Outcome X S
  trim_ledgers latest window s =
      if leb ((latest + 1) % 2 ^ 32) window
      then ok s
      else q.delete_ledgers_below s ((latest + 1) % 2 ^ 32 - window)

  unfoldable pub trim_transactions : ℕ → ℕ → S → Outcome X S
  trim_transactions latest window s =
      if leb ((latest + 1) % 2 ^ 32) window
      then ok s
      else q.delete_transactions_below s ((latest + 1) % 2 ^ 32 - window)

  -- InsertLedger; `sequence_of` is LedgerSequence of stellar/go
  abbrev pub insert_ledger : (L → ℕ) → L → S → Outcome X S
  insert_ledger sequence_of l s = q.insert_ledger s (sequence_of l) l

  abbrev pub one_ledger : List L → Outcome (GetLedgerError X) (Option L)
  one_ledger [] = ok none
  one_ledger (l ∷ []) = ok (some l)
  one_ledger (l ∷ m ∷ ls) = err (multiple_entries (length (l ∷ m ∷ ls)))

  -- GetLedger
  unfoldable pub get_ledger : S → ℕ → Outcome (GetLedgerError X) (Option L)
  get_ledger s sequence = elim (q.select_ledger s sequence) [
    | ok rows ↦ one_ledger rows
    | err e ↦ err (cannot_select e)
    | panic ↦ panic
  ]
