-- ===== src/Lib.antt =====
-- A model of soroban-rpc, the JSON RPC server of the Stellar network, and proofs about it.
--
-- The server ingests ledgers one by one. The ingestion hands each ledger to an in-memory event
-- store and to two fee windows, all three built on a circular buffer of the last ledgers; the
-- request handlers read them, behind limiters that bound the requests in flight. Paths below are
-- relative to cmd/soroban-rpc/internal.
--
-- Common          numbers, lists, integers and results that the other modules share. `Outcome` is
--                 what a Go call comes to: `ok`, a returned error `err`, or a run-time `panic`.
-- Window          ledgerbucketwindow/ledgerbucketwindow.go. `append`, `get`, `len` and
--                 `get_ledger_range` are Append, Get, Len and GetLedgerRange; `Window/Spec` is the
--                 list of the last ledgers that they implement. A window has at most 2^31
--                 buckets, the bound below which no index computation wraps.
-- Events/Cursor   events/cursor.go: cursors, Cmp, String and ParseCursor; `key` reads the four fields as
--                 one number.
-- Events/Store    events/events.go: `scan`, `validate_range` and `seek` are Scan, validateRange and
--                 seek. The decoding of XDR is the parameter `unmarshal`, the callback `f` a
--                 function that carries a state. `search` is sort.Search; its fuel is the length
--                 of the slice, which Events/Store/Search shows to be enough. `ingest_events` is
--                 IngestEvents, the ledger reader a list of what it hands out.
-- Fees            feewindow/feewindow.go: `compute_fee_distribution`, `append_ledger_fees` and
--                 `ingest_fees` are computeFeeDistribution, AppendLedgerFees and IngestFees. The
--                 bound of 2^57 fees is the one below which the percentiles do not wrap.
-- Methods/GetEvents
--                 methods/get_events.go: `request_valid`, `request_matches` and `get_events` are
--                 Valid, Matches and getEvents. The encodings of stellar/go and the time format
--                 are the functions of a record `Encodings`; strings are lists of bytes. JSON is
--                 left out. `Methods/GetEvents/Spec` says without the code what a request asks for.
-- Methods/GetTransactions
--                 methods/get_transactions.go: `is_valid` and `get_transactions`, with the two loops
--                 `ledger_loop` and `tx_loop`. The rounds of the first are counted beforehand, which
--                 is right for ledgers below 2^31 - 1, where the int32 of the source wraps.
-- Db/Migration    db/migration.go: the ranges of data migrations, and the list of them that is applied
--                 as one. The session of the database is a record of functions.
-- Db/Cache        db/transactionalcache.go: the cache of ledger entries and its transactions; a Go map
--                 is a function.
-- Db/Sql          the statements given to SQLite, an interface: what each does to the four tables is
--                 a named law, which the proofs take as a hypothesis.
-- Db/Writer       db/ledgerentry.go: `upsert_ledger_entry`, `delete_ledger_entry` and `flush` batch the
--                 updates of the ledger entries; Go may meet the keys of a batch in any order.
-- Db/Reader       db/ledgerentry.go: `get_raw_ledger_entries` is getRawLedgerEntries, with the lock of
--                 the global cache, which a read may find that it holds itself;
--                 `get_ledger_entries` is GetLedgerEntries, and
--                 `Db/Reader/Answers` what it promises.
-- Db/Ledgers      db/ledger.go, and trimTransactions of db/transaction.go.
-- Db/Transactions db/transaction.go: `insert_transactions` is InsertTransactions.
-- Db/Meta, Db/Commit
--                 db/db.go: the metadata, and `commit_write_tx`, the Commit of a write transaction.
-- Network/Backlog network/backlogQ.go: a step for each atomic operation of a request, and runs of
--                 any number of requests under any schedule. The count of requests is below
--                 2^64 - 1, so that the counter does not wrap.
-- Network/Duration
--                 network/requestdurationlimiter.go: the race of the handler against the timers of
--                 the warning and the limit, as steps of one request, and the writer that buffers
--                 the response. net/http is modelled as far as the buffer stands in for it.
-- Tests           the theorems applied to small inputs.
--
-- Locks are left out, but for the lock of the global cache in Db/Reader: the code holds them for
-- the whole of an operation. Metrics and log messages are left out as well. Not modelled are the
-- lookup of transactions in the database, the ingestion service, the other request handlers, the
-- configuration and the wiring of the daemon, which are SQL, I/O and third-party calls for the most
-- part, and the Rust library that simulates transactions.
pub mod Common
pub mod Window
pub mod Events
pub mod Fees
pub mod Methods
pub mod Db
pub mod Network
pub mod Tests
