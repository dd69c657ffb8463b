-- ===== src/Events/Store/Ingest.antt =====
-- IngestEvents, readEvents and GetLedgerRange of internal/events/events.go. What the ledger reader
-- of the ingest library hands out is a list of reads.
use soroban_rpc.Common.{
  ℕ, ◌+◌, ◌%◌, ◌^◌, Bool, Option, none, some, List, [], ◌∷◌, ◌++◌, ℤ, if◌then◌else◌, Outcome, ok,
  err, panic, ◌>>=◌,
}
use soroban_rpc.Window.{LedgerBucket, AppendError, append, LedgerRange, get_ledger_range}
use soroban_rpc.Events.Store.{Event, MemoryStore}

-- A transaction that the reader hands out. GetDiagnosticEvents may fail, and so may the marshalling
-- of each event.
pub record EventTransaction (Hash : Type 0) : Type 0 where
  pub successful : Bool
  pub index : ℕ
  pub transaction_hash : Hash
  pub diagnostic_events : Option (List (Option (List ℕ)))

pub data EventRead (Hash : Type 0) : Type 0 where
  transaction : EventTransaction Hash → EventRead Hash
  read_error : EventRead Hash

-- The parts of a ledger close meta: no reader where it cannot be made, and whether closing it fails.
pub record EventMeta (Hash : Type 0) : Type 0 where
  pub ledger_sequence : ℕ
  pub ledger_close_time : ℤ
  pub reader : Option (List (EventRead Hash))
  pub close_fails : Bool

pub data IngestError : Type 0 where
  cannot_make_reader : IngestError
  cannot_read : IngestError
  no_diagnostic_events : IngestError
  cannot_marshal : IngestError
  cannot_close : IngestError
  not_appended : AppendError → IngestError

module _ {Hash : Type 0} where
  -- The loop of readEvents over the events of one transaction, from an index on.
  unfoldable pub store_events :
      EventTransaction Hash → ℕ → List (Option (List ℕ)) → Outcome IngestError (List (Event Hash))
  store_events tx i [] = ok []
  store_events tx i (none ∷ es) = err cannot_marshal
  store_events tx i (some xdr ∷ es) = do
    rest ← store_events tx (i + 1) es
    ok (
        record {
          diagnostic_event_xdr = xdr;
          tx_index = tx.index;
          event_index = i % 2 ^ 32;
          tx_hash = tx.transaction_hash;
        }
        ∷ rest)

  -- The body of its loop over the transactions.
  unfoldable pub events_of_transaction :
      EventTransaction Hash → Outcome IngestError (List (Event Hash))
  unfolding store_events
  events_of_transaction tx =
      if tx.successful
      then elim tx.diagnostic_events [
        | none ↦ err no_diagnostic_events
        | some es ↦ store_events tx 0 es
      ]
      else ok []

  -- readEvents behind the making of the reader; closing it comes last.
  unfoldable pub read_all :
      Bool → List (EventRead Hash) → List (Event Hash) → Outcome IngestError (List (Event Hash))
  unfolding events_of_transaction
  read_all close_fails [] events = if close_fails then err cannot_close else ok events
  read_all close_fails (read_error ∷ reads) events = err cannot_read
  read_all close_fails (transaction tx ∷ reads) events =
      events_of_transaction tx >>= λ more. read_all close_fails reads (events ++ more)

  -- readEvents
  unfoldable pub read_events : EventMeta Hash → Outcome IngestError (List (Event Hash))
  unfolding read_all
  read_events meta = elim meta.reader [
    | none ↦ err cannot_make_reader
    | some reads ↦ read_all meta.close_fails reads []
  ]

  abbrev pub appended :
      Outcome AppendError (Option (LedgerBucket (List (Event Hash))) × MemoryStore Hash)
      → Outcome IngestError (MemoryStore Hash)
  appended (ok (evicted, m)) = ok m
  appended (err e) = err (not_appended e)
  appended panic = panic

  -- IngestEvents: the store afterwards; an error leaves it as it was.
  unfoldable pub ingest_events :
      MemoryStore Hash → EventMeta Hash → Outcome IngestError (MemoryStore Hash)
  unfolding read_events
  ingest_events m meta = do
    events ← read_events meta
    appended (
        append m (record {
          ledger_seq = meta.ledger_sequence;
          ledger_close_timestamp = meta.ledger_close_time;
          bucket_content = events;
        }))

  -- GetLedgerRange
  abbrev pub store_range : MemoryStore Hash → Outcome IngestError LedgerRange
  store_range m = get_ledger_range m
