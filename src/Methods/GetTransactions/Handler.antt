-- ===== src/Methods/GetTransactions/Handler.antt =====
-- The handler of getTransactions: getTransactionsByLedgerSequence.
use soroban_rpc.Common.{
  ℕ, zero, suc, ◌+◌, ◌-◌, Bool, Option, none, some, List, [], ◌∷◌, ◌++◌, ℤ, pos, ◌-ℤ◌, leb_ℤ, ltb,
  length, if◌then◌else◌, Outcome, ok, err, panic, ◌>>=◌, map, parse_int,
}
use soroban_rpc.Window.{LedgerRange}
use soroban_rpc.Methods.GetTransactions.{
  GetTransactionsRequest, Transaction, TransactionInfo, GetTransactionsResponse,
  GetTransactionsError, internal_error, invalid_cursor, ledger_not_found, unreadable, read_tx,
  read_eof, read_failed, sought, sought_eof, seek_failed, Toid, Readers, is_given, is_valid, to_int,
  to_uint32, next_ℤ, span_of, Gathered, Looped, ran_out, full, stopped, loop_panicked,
}

module _ {X L T : Type 0} (h : Readers X L T) where
  abbrev pub transaction_info : Transaction → TransactionInfo
  transaction_info t = record {
    is_success = t.successful;
    info_application_order = t.application_order;
    info_fee_bump = t.fee_bump;
    envelope_xdr = h.base64 t.envelope;
    result_xdr = h.base64 t.result;
    result_meta_xdr = h.base64 t.meta;
    diagnostic_events_xdr = map h.base64 t.events;
    info_ledger = t.ledger;
    ledger_close_time = t.close_time;
  }

  abbrev pub toid_at : L → ℕ → Toid
  toid_at l i = record {
    ledger_sequence = to_int 31 (h.sequence_of l);
    transaction_order = i;
    operation_order = 1;
  }

  abbrev pub add_info : L → ℕ → Gathered → Transaction → Gathered
  add_info l i g t = record {
    txns = g.txns ++ (transaction_info t ∷ []);
    cursor = some (toid_at l i);
  }

  abbrev pub is_full : ℕ → Gathered → Bool
  is_full limit g = leb_ℤ (to_int 63 limit) (pos (length g.txns))

  -- The loop over the transactions of a ledger: some rounds from index i on, with the reader at `place`.
  abbrev pub tx_loop : ℕ → L → ℕ → ℕ → ℕ → Gathered → Looped X
  tx_loop limit l zero i place g = ran_out g
  tx_loop limit l (suc rounds) i place g = elim (h.read l place) [
    | read_eof ↦ ran_out (record g { cursor = some (toid_at l i) })
    | read_failed e ↦ stopped (unreadable e)
    | read_tx t ↦ elim (h.parse_transaction l t) [
      | panic ↦ loop_panicked
      | err e ↦ stopped (internal_error e)
      | ok tx ↦
          let gathered = add_info l i g tx in
          let rest = tx_loop limit l rounds (i + 1) (place + 1) gathered in
          if is_full limit gathered then full gathered else rest
    ]
  ]

  -- A ledger read from its start, and the first one, read from the index of the start on. Where Seek
  -- fails, the code reads the message of another error, which is nil.
  abbrev pub whole_ledger : ℕ → L → Gathered → Looped X
  whole_ledger limit l g = tx_loop limit l (h.count_transactions l) 1 0 g

  abbrev pub seek_ledger : ℕ → ℕ → L → Gathered → Looped X
  seek_ledger limit order l g = elim (h.seek l (order - 1)) [
    | sought ↦ tx_loop limit l (h.count_transactions l + 1 - order) order (order - 1) g
    | sought_eof ↦ tx_loop limit l (h.count_transactions l + 1 - order) order 0 g
    | seek_failed e ↦ loop_panicked
  ]

  -- One round of the loop over the ledgers, for what it does with the transactions.
  abbrev pub with_reader : (L → Gathered → Looped X) → L → Gathered → Looped X
  with_reader run l g = elim (h.open_reader l) [
    | none ↦ run l g
    | some e ↦ stopped (internal_error e)
  ]

  abbrev pub with_ledger : (L → Gathered → Looped X) → ℤ → Gathered → Looped X
  with_ledger run seq g = elim (h.get_ledger (to_uint32 seq)) [
    | panic ↦ loop_panicked
    | err e ↦ stopped (internal_error e)
    | ok none ↦ stopped (ledger_not_found seq)
    | ok (some l) ↦ with_reader run l g
  ]

  -- The rounds after the first: some ledgers from `seq` on.
  abbrev pub and_then : Looped X → (Gathered → Looped X) → Looped X
  and_then (ran_out g) next = next g
  and_then (full g) next = full g
  and_then (stopped e) next = stopped e
  and_then loop_panicked next = loop_panicked

  abbrev pub ledger_loop : ℕ → ℕ → ℤ → Gathered → Looped X
  ledger_loop limit zero seq g = ran_out g
  ledger_loop limit (suc rounds) seq g =
      and_then (with_ledger (whole_ledger limit) seq g) (ledger_loop limit rounds (next_ℤ seq))

  abbrev pub loops : ℕ → Toid → ℕ → Gathered → Looped X
  loops limit start zero g = ran_out g
  loops limit start (suc rounds) g =
      and_then (with_ledger (seek_ledger limit start.transaction_order) start.ledger_sequence g)
        (ledger_loop limit rounds (next_ℤ start.ledger_sequence))

  -- Where the loop starts, and how much it may gather.
  abbrev pub start_of : GetTransactionsRequest → Outcome (GetTransactionsError X) Toid
  start_of r =
      let fresh : Toid = record {
        ledger_sequence = to_int 31 r.start_ledger;
        transaction_order = 1;
        operation_order = 1;
      } in
      elim r.pagination [
        | none ↦ ok fresh
        | some p ↦
            if is_given p.pagination_cursor
            then elim (parse_int 64 p.pagination_cursor) [
              | none ↦ err invalid_cursor
              | some n ↦ ok (record (h.parse_toid n) {
                transaction_order = (h.parse_toid n).transaction_order + 1;
              })
            ]
            else ok fresh
      ]

  abbrev pub limit_of : ℕ → GetTransactionsRequest → ℕ
  limit_of default_limit r = elim r.pagination [
    | none ↦ default_limit
    | some p ↦ if ltb 0 p.pagination_limit then p.pagination_limit else default_limit
  ]

  -- The end: a cursor that is still nil is dereferenced.
  abbrev pub respond_with :
      LedgerRange
      → List TransactionInfo
      → Option Toid
      → Outcome (GetTransactionsError X) GetTransactionsResponse
  respond_with range txns none = panic
  respond_with range txns (some c) =
      ok (record { transactions = txns; ledger_range = range; cursor = h.toid_string c })

  abbrev pub respond :
      LedgerRange → Looped X → Outcome (GetTransactionsError X) GetTransactionsResponse
  respond range (ran_out g) = respond_with range g.txns g.cursor
  respond range (full g) = respond_with range g.txns g.cursor
  respond range (stopped e) = err e
  respond range loop_panicked = panic

  abbrev pub nothing_yet : Gathered
  nothing_yet = record { txns = []; cursor = none }

  abbrev pub in_range :
      ℕ
      → ℕ
      → GetTransactionsRequest
      → LedgerRange
      → Outcome (GetTransactionsError X) GetTransactionsResponse
  in_range max_limit default_limit r range = elim (is_valid r max_limit range) [
    | some e ↦ err e
    | none ↦ start_of r >>= (λ start. respond range (
        loops (limit_of default_limit r) start
          (span_of (to_int 31 range.last_ledger.sequence -ℤ start.ledger_sequence)) nothing_yet))
  ]

  -- getTransactionsByLedgerSequence
  unfoldable pub get_transactions :
      ℕ → ℕ → GetTransactionsRequest → Outcome (GetTransactionsError X) GetTransactionsResponse
  unfolding is_valid
  get_transactions max_limit default_limit r = elim h.get_ledger_range [
    | panic ↦ panic
    | err e ↦ err (internal_error e)
    | ok range ↦ in_range max_limit default_limit r range
  ]
