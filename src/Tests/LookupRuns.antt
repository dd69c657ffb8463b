-- ===== src/Tests/LookupRuns.antt =====
-- A plain transaction and a fee bump are inserted and found by their hashes.
use soroban_rpc.Common.{
  ℕ, ◌≡◌, refl, true, false, Option, none, some, List, [], ◌∷◌, ◌∙◌, get_elem?, Outcome, ok, err,
}
use soroban_rpc.Db.Cache.{assign, put}
use soroban_rpc.Db.Cache.Lookup.{lookup, Unique, put-lookup, put-Unique}
use soroban_rpc.Db.Sql.{Tables}
use soroban_rpc.Db.Writer.Plan.{last_row}
use soroban_rpc.Db.Transactions.{
  LedgerTransaction, IngestReader, InsertError, TransactionMap, insert_transactions,
}
use soroban_rpc.Db.Transactions.Inserted.{hashes_of, insert_transactions-found}
use soroban_rpc.Tests.Engine.{engine, engine-IsSql}

abbrev plain : LedgerTransaction
plain = record { is_fee_bump = false; inner_hash = []; transaction_hash = 1 ∷ []; index = 1 }

abbrev bump : LedgerTransaction
bump = record { is_fee_bump = true; inner_hash = 2 ∷ []; transaction_hash = 3 ∷ []; index = 2 }

abbrev sent : List LedgerTransaction
sent = plain ∷ bump ∷ []

abbrev outcome_of : Option LedgerTransaction → Outcome ℕ LedgerTransaction
outcome_of none = err 0
outcome_of (some tx) = ok tx

abbrev reader : IngestReader ℕ ℕ
reader = record {
  count_transactions = λ l. 2;
  sequence_of = λ l. l;
  open_reader = λ l. none;
  read = λ l i. outcome_of (get_elem? sent i);
}

-- An order of a map in which each key comes once, whatever the list.
abbrev reversed : TransactionMap → TransactionMap
reversed [] = []
reversed (e ∷ es) = put (reversed es) e.0 e.1

reversed-Unique : (m : TransactionMap) → Unique (reversed m)
reversed-Unique [] = tt
reversed-Unique (e ∷ es) = put-Unique (reversed es) e.0 e.1 (reversed-Unique es)

reversed-lookup : (m : TransactionMap) (k : List ℕ) → lookup (reversed m) k ≡ lookup m k
reversed-lookup [] k = refl
reversed-lookup (e ∷ es) k = put-lookup (reversed es) e.0 k e.1 ∙ rw (reversed-lookup es k) refl

abbrev database : Tables ℕ
database = record {
  entries = λ k. none;
  meta = λ k. none;
  ledgers = λ n. none;
  transactions = assign (λ k. none) (7 ∷ []) (some (3, 1));
}

abbrev state_of : Outcome (InsertError ℕ) (Tables ℕ) → Tables ℕ
state_of (ok t) = t
state_of _ = database

abbrev inserted : Tables ℕ
unfolding insert_transactions
inserted = state_of (insert_transactions engine reader reversed true 9 database)

insert_transactions-found_example :
    inserted.transactions (2 ∷ []) ≡ elim (last_row (hashes_of sent) (2 ∷ [])) [
      | some tx ↦ some (9, tx.index)
      | none ↦ database.transactions (2 ∷ [])
    ]
unfolding insert_transactions
insert_transactions-found_example =
    insert_transactions-found engine reader reversed engine-IsSql
      (λ m u. (reversed-Unique m, reversed-lookup m)) 9 database inserted sent refl refl
      (refl, (refl, tt)) refl (2 ∷ [])
