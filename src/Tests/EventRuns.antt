-- ===== src/Tests/EventRuns.antt =====
-- A store of two ledgers, with three events.
use soroban_rpc.Common.{
  ℕ, ◌^◌, ◌<◌, ◌≡◌, refl, inl, inr, Bool, true, false, Option, none, some, List, [], ◌∷◌, ◌++◌, ℤ,
  pos, filter, arith, ok,
}
use soroban_rpc.Window.{get}
use soroban_rpc.Window.Spec.{contents, slide}
use soroban_rpc.Events.Store.Ingest.{EventTransaction, EventMeta, ingest_events}
use soroban_rpc.Events.Store.Arrival.{ledger_events, reads_of}
use soroban_rpc.Events.Store.Kept.{bucket_of, ingest_events-IsStore}
use soroban_rpc.Events.Cursor.{Cursor, cmp, cursor_cmp}
use soroban_rpc.Events.Cursor.Order.{InRange, key}
use soroban_rpc.Events.Store.{
  Event, MemoryStore, Range, seek, validate_range, check_range, ledger_start, scan,
}
use soroban_rpc.Events.Store.Seek.{Ordered, place, at_or_after, seek-eq-filter}
use soroban_rpc.Events.Store.Bounds.{Bounded, Resolved, check_range-ok, check_range_complete}
use soroban_rpc.Events.Store.Entries.{visit}
use soroban_rpc.Events.Store.Pieces.{events_of}
use soroban_rpc.Events.Store.Scan.{IsStore, scan_lem}

abbrev at : ℕ → ℕ → ℕ → Cursor
at ledger tx event = record { ledger = ledger; tx = tx; op = 0; event = event }

at-InRange : (l t e : ℕ) → l < 2 ^ 32 → t < 2 ^ 32 → e < 2 ^ 32 → InRange (at l t e)
at-InRange l t e h k m = record { ledger_lt = h; tx_lt = k; op_lt = omega arith; event_lt = m }

abbrev pub event_at : ℕ → ℕ → Event ℕ
event_at tx event = record {
  diagnostic_event_xdr = tx ∷ event ∷ [];
  tx_index = tx;
  event_index = event;
  tx_hash = tx;
}

abbrev pub events : List (Event ℕ)
events = event_at 1 0 ∷ event_at 1 1 ∷ event_at 2 0 ∷ []

pub events-Ordered : Ordered events
unfolding place key
events-Ordered = (
  omega arith,
  omega arith,
  (omega arith, (omega arith, tt)),
  (omega arith, omega arith, (omega arith, tt), (omega arith, omega arith, tt, tt)),
)

abbrev pub store : MemoryStore ℕ
store = record {
  buckets =
      (record { ledger_seq = 6; ledger_close_timestamp = pos 30; bucket_content = events })
      ∷ (record { ledger_seq = 7; ledger_close_timestamp = pos 35; bucket_content = [] })
      ∷ [];
  cap = 2;
  start = 0;
}

unfoldable pub store-IsStore : IsStore store
store-IsStore = record {
  shaped = record {
    has_room = omega arith;
    small = omega arith;
    len_in = omega arith;
    start_in = omega arith;
    turned = inl refl;
  };
  first = 6;
  consecutive = (refl, (refl, tt));
  room = omega arith;
  ordered = (events-Ordered, (tt, tt));
}

abbrev wanted : Range
wanted = record { start = at 6 1 1; clamp_start = false; end = at 9 0 0; clamp_end = true }

abbrev taken : Range
taken = record { start = at 6 1 1; clamp_start = false; end = at 8 0 0; clamp_end = true }

wanted-Bounded : Bounded wanted
wanted-Bounded = record {
  start_range = at-InRange 6 1 1 (omega arith) (omega arith) (omega arith);
  end_range = at-InRange 9 0 0 (omega arith) (omega arith) (omega arith);
}

check_range-taken : check_range 6 2 wanted ≡ ok taken
unfolding check_range cursor_cmp cmp
check_range-taken = refl

validate_range-taken : validate_range store wanted ≡ ok taken
unfolding validate_range check_range cursor_cmp cmp get
validate_range-taken = refl

-- An event is decoded to its first byte, and kept.
abbrev first_byte : List ℕ → Option ℕ
first_byte [] = none
first_byte (b ∷ _) = some b

abbrev keep : List ℕ → ℕ → Cursor → ℤ → ℕ → List ℕ × Bool
keep kept d cur timestamp hash = (kept ++ (d ∷ []), true)

seek-eq-filter_example : seek events (at 6 1 1) ≡ filter (at_or_after (at 6 1 1)) events
seek-eq-filter_example =
    seek-eq-filter (at 6 1 1) events (at-InRange 6 1 1 (omega arith) (omega arith) (omega arith))
      events-Ordered

check_range-ok_example : Resolved (ledger_start 6) (ledger_start 8) wanted taken
check_range-ok_example =
    check_range-ok 6 2 wanted taken (omega arith) wanted-Bounded check_range-taken

check_range_complete_example : (r : Range) × (check_range 6 2 wanted ≡ ok r)
unfolding key
check_range_complete_example =
    check_range_complete 6 2 wanted (omega arith) wanted-Bounded (inl (omega arith)) (inr refl)
      (omega arith)

scan_lem_example :
    scan first_byte keep store wanted []
    ≡ visit first_byte keep 7 (events_of wanted (contents store)) []
unfolding store-IsStore
scan_lem_example =
    scan_lem first_byte keep store wanted taken [] store-IsStore wanted-Bounded validate_range-taken

-- Ledger 8: a transaction with two events, and one that failed.
abbrev arrivals : List (EventTransaction ℕ × List (List ℕ))
arrivals =
    (
      record {
        successful = true;
        index = 1;
        transaction_hash = 40;
        diagnostic_events = some (some (5 ∷ []) ∷ some (6 ∷ []) ∷ []);
      },
      (5 ∷ []) ∷ (6 ∷ []) ∷ [],
    )
    ∷ (
      record { successful = false; index = 2; transaction_hash = 41; diagnostic_events = none },
      [],
    )
    ∷ []

abbrev arriving : EventMeta ℕ
arriving = record {
  ledger_sequence = 8;
  ledger_close_time = pos 40;
  reader = some (reads_of arrivals);
  close_fails = false;
}

ingest_events-IsStore_example :
    (m : MemoryStore ℕ) × (ingest_events store arriving ≡ ok m)
    × IsStore m
    × (contents m ≡ (slide 2 (contents store) (bucket_of arriving (ledger_events arrivals))).1)
ingest_events-IsStore_example =
    ingest_events-IsStore store arriving arrivals store-IsStore refl refl
      (inl (refl, refl, omega arith), (inr (refl, refl), tt))
      (omega arith, (omega arith, tt), (omega arith, tt, tt)) refl (omega arith)
