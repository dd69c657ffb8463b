-- ===== src/Tests/TransactionRuns.antt =====
-- Two ledgers with three transactions, and pages of them.
use soroban_rpc.Common.{
  ℕ, ◌<◌, ◌≤◌, true, false, Bool, Option, none, some, List, [], ◌∷◌, ℤ, pos, ltb, ◌==◌, length,
  get_elem?, if◌then◌else◌, Outcome, ok, map,
}
use soroban_rpc.Window.{LedgerRange}
use soroban_rpc.Methods.GetTransactions.{
  Transaction, TransactionInfo, GetTransactionsRequest, Toid, Readers, TxRead, read_tx, read_eof,
  sought, sought_eof,
}
use soroban_rpc.Methods.GetTransactions.Handler.{transaction_info}

abbrev sent : ℕ → ℕ → Transaction
sent seq i = record {
  result = seq ∷ i ∷ [];
  meta = [];
  envelope = [];
  events = [];
  fee_bump = false;
  application_order = i;
  successful = true;
  ledger = seq;
  close_time = pos seq;
}

abbrev fifth : ℕ × List Transaction
fifth = (5, sent 5 1 ∷ sent 5 2 ∷ [])

abbrev sixth : ℕ × List Transaction
sixth = (6, sent 6 1 ∷ [])

abbrev read_of : Option Transaction → TxRead ℕ Transaction
read_of none = read_eof
read_of (some t) = read_tx t

abbrev both : LedgerRange
both = record {
  first_ledger = record { sequence = 5; close_time = pos 5 };
  last_ledger = record { sequence = 6; close_time = pos 6 };
}

abbrev readers : Readers ℕ (ℕ × List Transaction) Transaction
readers = record {
  get_ledger_range = ok both;
  get_ledger = λ n. if n == 5 then ok (some fifth) else if n == 6 then ok (some sixth) else ok none;
  open_reader = λ l. none;
  count_transactions = λ l. length l.1;
  sequence_of = λ l. l.0;
  seek = λ l place. if ltb place (length l.1) then sought else sought_eof;
  read = λ l place. read_of (get_elem? l.1 place);
  parse_transaction = λ l t. ok t;
  base64 = λ bytes. bytes;
  parse_toid = λ n. record { ledger_sequence = n; transaction_order = 1; operation_order = 1 };
  toid_string = λ t. t.transaction_order ∷ [];
}

abbrev infos : ℕ × List Transaction → List TransactionInfo
infos l = map (transaction_info readers) l.1

abbrev stored : List ((ℕ × List Transaction) × List TransactionInfo)
stored = (fifth, infos fifth) ∷ (sixth, infos sixth) ∷ []

-- Right after the first transaction of ledger 5, at most ten.
abbrev request : GetTransactionsRequest
request = record {
  start_ledger = 0;
  pagination = some (record { pagination_cursor = 53 ∷ []; pagination_limit = 10 });
}

abbrev start : Toid
start = record { ledger_sequence = pos 5; transaction_order = 2; operation_order = 1 }
