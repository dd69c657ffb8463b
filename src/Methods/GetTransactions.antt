-- ===== src/Methods/GetTransactions.antt =====
-- internal/methods/get_transactions.go: pages of transactions, ledger by ledger. The reader of a
-- ledger's transactions, of the ingest library, and toid are those of stellar/go.
pub mod Handler
pub mod Loops
pub mod Page
use soroban_rpc.Common.{
  ℕ, zero, suc, ◌+◌, ◌-◌, ◌%◌, ◌^◌, Bool, true, false, Option, none, some, List, [], ◌∷◌, ◌++◌, ℤ,
  pos, negsuc, ◌-ℤ◌, ltb, ◌==◌, ◌&&◌, ◌||◌, not, leb_ℤ, length, if◌then◌else◌, Outcome, ok, err,
  panic, ◌>>=◌, map,
}
use soroban_rpc.Window.{LedgerRange}

-- TransactionsPaginationOptions; no cursor is the empty one.
pub record TransactionsPaginationOptions : Type 0 where
  pub pagination_cursor : List ℕ
  pub pagination_limit : ℕ

-- GetTransactionsRequest
pub record GetTransactionsRequest : Type 0 where
  pub start_ledger : ℕ
  pub pagination : Option TransactionsPaginationOptions

-- Transaction of internal/db/transaction.go; the ledger is its sequence and close time.
pub record Transaction : Type 0 where
  pub result : List ℕ
  pub meta : List ℕ
  pub envelope : List ℕ
  pub events : List (List ℕ)
  pub fee_bump : Bool
  pub application_order : ℕ
  pub successful : Bool
  pub ledger : ℕ
  pub close_time : ℤ

-- TransactionInfo; the status is whether it was successful.
pub record TransactionInfo : Type 0 where
  pub is_success : Bool
  pub info_application_order : ℕ
  pub info_fee_bump : Bool
  pub envelope_xdr : List ℕ
  pub result_xdr : List ℕ
  pub result_meta_xdr : List ℕ
  pub diagnostic_events_xdr : List (List ℕ)
  pub info_ledger : ℕ
  pub ledger_close_time : ℤ

pub record GetTransactionsResponse : Type 0 where
  pub transactions : List TransactionInfo
  pub ledger_range : LedgerRange
  pub cursor : List ℕ

-- The codes InternalError, InvalidRequest and InvalidParams, with what was wrong.
pub data GetTransactionsError (X : Type 0) : Type 0 where
  internal_error : X → GetTransactionsError X
  cursor_and_start : GetTransactionsError X
  start_out_of_range : ℕ → ℕ → GetTransactionsError X
  limit_exceeded : ℕ → GetTransactionsError X
  invalid_cursor : GetTransactionsError X
  ledger_not_found : ℤ → GetTransactionsError X
  unreadable : X → GetTransactionsError X

-- What Read answers, at some place of the ledger.
pub data TxRead (X T : Type 0) : Type 0 where
  read_tx : T → TxRead X T
  read_eof : TxRead X T
  read_failed : X → TxRead X T

pub data Sought (X : Type 0) : Type 0 where
  sought : Sought X
  sought_eof : Sought X
  seek_failed : X → Sought X

-- toid.ID, with the int32 of the ledger
pub record Toid : Type 0 where
  pub ledger_sequence : ℤ
  pub transaction_order : ℕ
  pub operation_order : ℕ

-- What the handler calls: the readers of the database, the ingest library, base64 and toid.
pub record Readers (X L T : Type 0) : Type 0 where
  pub get_ledger_range : Outcome X LedgerRange
  pub get_ledger : ℕ → Outcome X (Option L)
  pub open_reader : L → Option X
  pub count_transactions : L → ℕ
  pub sequence_of : L → ℕ
  pub seek : L → ℕ → Sought X
  pub read : L → ℕ → TxRead X T
  pub parse_transaction : L → T → Outcome X Transaction
  pub base64 : List ℕ → List ℕ
  pub parse_toid : ℤ → Toid
  pub toid_string : Toid → List ℕ

-- isValid
abbrev pub is_given : List ℕ → Bool
is_given [] = false
is_given (b ∷ bs) = true

abbrev pub valid_limit :
    {X : Type 0} → ℕ → Option TransactionsPaginationOptions → Option (GetTransactionsError X)
valid_limit max_limit none = none
valid_limit max_limit (some p) =
    if ltb max_limit p.pagination_limit then some (limit_exceeded max_limit) else none

abbrev pub valid_start :
    {X : Type 0}
    → LedgerRange
    → GetTransactionsRequest
    → Option (GetTransactionsError X)
    → Option (GetTransactionsError X)
valid_start range r rest =
    if ltb r.start_ledger range.first_ledger.sequence
      || ltb range.last_ledger.sequence r.start_ledger
    then some (start_out_of_range range.first_ledger.sequence range.last_ledger.sequence)
    else rest

abbrev pub has_cursor : Option TransactionsPaginationOptions → Bool
has_cursor none = false
has_cursor (some p) = is_given p.pagination_cursor

unfoldable pub is_valid :
    {X : Type 0} → GetTransactionsRequest → ℕ → LedgerRange → Option (GetTransactionsError X)
is_valid r max_limit range =
    if has_cursor r.pagination
    then (if r.start_ledger == 0 then valid_limit max_limit r.pagination else some cursor_and_start)
    else valid_start range r (valid_limit max_limit r.pagination)

-- The conversions of the integers of the loop.
abbrev pub to_int : ℕ → ℕ → ℤ
to_int bits n =
    if ltb (n % 2 ^ (bits + 1)) (2 ^ bits)
    then pos (n % 2 ^ (bits + 1))
    else negsuc (2 ^ (bits + 1) - 1 - n % 2 ^ (bits + 1))

abbrev pub to_uint32 : ℤ → ℕ
to_uint32 (pos n) = n % 2 ^ 32
to_uint32 (negsuc n) = 2 ^ 32 - 1 - n % 2 ^ 32

abbrev pub next_ℤ : ℤ → ℤ
next_ℤ (pos n) = pos (n + 1)
next_ℤ (negsuc zero) = pos 0
next_ℤ (negsuc (suc n)) = negsuc n

-- How many rounds the loop over the ledgers makes, where the last of them is below 2^31 - 1.
abbrev pub span_of : ℤ → ℕ
span_of (pos n) = n + 1
span_of (negsuc n) = 0

-- `txns` and `cursor`, and how a loop is left.
pub record Gathered : Type 0 where
  pub txns : List TransactionInfo
  pub cursor : Option Toid

pub data Looped (X : Type 0) : Type 0 where
  -- the loop has run out, or the page is full
  ran_out : Gathered → Looped X
  full : Gathered → Looped X
  stopped : GetTransactionsError X → Looped X
  loop_panicked : Looped X
