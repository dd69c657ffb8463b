-- ===== src/Methods/GetEvents/Place.antt =====
-- Where the handler of getEvents starts its scan, and how many events it looks for, are what the request
-- asks for.
use soroban_rpc.Common.{
  ℕ, zero, suc, ◌+◌, ◌-◌, ◌%◌, if◌then◌else◌, Bool, false, ◌*◌, ◌^◌, ◌≤◌, ◌<◌, ◌≡◌, refl, ◌∙◌, inl,
  inr, Option, none, some, List, ltb, leb, lt→ltb, ◌&&◌, true, arith, length, filter, filter_cong,
  All-map_imp, ok,
}
use soroban_rpc.Window.Spec.{contents}
use soroban_rpc.Events.Cursor.{Cursor, max_cursor}
use soroban_rpc.Events.Cursor.Order.{InRange, key}
use soroban_rpc.Events.Store.{MemoryStore, Range, validate_range}
use soroban_rpc.Events.Store.Bounds.{Bounded, key-ledger_start, check_range_complete}
use soroban_rpc.Events.Store.Sorted.{all_entries-below}
use soroban_rpc.Events.Store.Entries.{Entry, all_entries}
use soroban_rpc.Events.Store.Pieces.{events_of}
use soroban_rpc.Events.Store.Scan.{IsStore, validate_range-eq}
use soroban_rpc.Methods.GetEvents.{GetEventsRequest, EventFilter, PaginationOptions}
use soroban_rpc.Methods.GetEvents.Handler.{start_of, limit_of, range_of_request}
use soroban_rpc.Methods.GetEvents.Spec.{or_default, first_place, HasPlace, page_size}

key-max_cursor : key max_cursor ≡ 2 ^ 128 - 1
unfolding key
key-max_cursor = refl

max_cursor-InRange : InRange max_cursor
max_cursor-InRange = record {
  ledger_lt = omega arith;
  tx_lt = omega arith;
  op_lt = omega arith;
  event_lt = omega arith;
}

given_or_default : (n default : ℕ) → (if ltb 0 n then n else default) ≡ or_default default n
given_or_default zero default = refl
given_or_default (suc n) default = rw (lt→ltb 0 (suc n) (omega arith)) refl

and_true : (b : Bool) → (b && true) ≡ b
and_true true = refl
and_true false = refl

test_from :
    (start place k end : ℕ) → start ≡ place → k < end → (leb start k && ltb k end) ≡ leb place k
test_from start place k end h below = rw (h, lt→ltb k end below) (and_true (leb place k))

module _ {ScVal : Type 0} where
  start_at :
      (ledger : ℕ) (fs : List (EventFilter ScVal)) (c : Option Cursor) (limit : ℕ)
      → (let r : GetEventsRequest ScVal = record {
        start_ledger = ledger;
        filters = fs;
        pagination = some (record { page_cursor = c; page_limit = limit });
      } in
          HasPlace r → InRange (start_of r) × (key (start_of r) ≡ first_place r))
  unfolding key
  start_at ledger fs none limit h = (
    record { ledger_lt = h; tx_lt = omega arith; op_lt = omega arith; event_lt = omega arith },
    omega arith,
  )
  start_at ledger fs (some c) limit h =
      let u = h.0 in
      let event : (c.event + 1) % 2 ^ 32 ≡ c.event + 1 = omega (arith, h.1) in
      (
        record {
          ledger_lt = u.ledger_lt;
          tx_lt = u.tx_lt;
          op_lt = u.op_lt;
          event_lt = omega arith;
        },
        omega (arith, event),
      )

  start_from :
      (ledger : ℕ) (fs : List (EventFilter ScVal)) (p : Option PaginationOptions)
      → (let r : GetEventsRequest ScVal = record {
        start_ledger = ledger;
        filters = fs;
        pagination = p;
      } in
          HasPlace r → InRange (start_of r) × (key (start_of r) ≡ first_place r))
  unfolding key
  start_from ledger fs none h = (
    record { ledger_lt = h; tx_lt = omega arith; op_lt = omega arith; event_lt = omega arith },
    omega arith,
  )
  start_from ledger fs (some p) h = start_at ledger fs p.page_cursor p.page_limit h

  pub start_of-place :
      (r : GetEventsRequest ScVal)
      → HasPlace r
      → InRange (start_of r) × (key (start_of r) ≡ first_place r)
  start_of-place r h = start_from r.start_ledger r.filters r.pagination h

  limit_from :
      (ledger : ℕ) (fs : List (EventFilter ScVal)) (p : Option PaginationOptions) (default : ℕ)
      → (let r : GetEventsRequest ScVal = record {
        start_ledger = ledger;
        filters = fs;
        pagination = p;
      } in
          limit_of default r ≡ page_size default r)
  limit_from ledger fs none default = refl
  limit_from ledger fs (some p) default = given_or_default p.page_limit default

  pub limit_of-page_size :
      (r : GetEventsRequest ScVal) (default : ℕ) → limit_of default r ≡ page_size default r
  limit_of-page_size r default = limit_from r.start_ledger r.filters r.pagination default

  pub range_of_request-Bounded :
      (r : GetEventsRequest ScVal) → HasPlace r → Bounded (range_of_request r)
  range_of_request-Bounded r h = record {
    start_range = (start_of-place r h).0;
    end_range = max_cursor-InRange;
  }

  module _ {Hash : Type 0} where
    -- The store takes the range of a request for a place within it.
    pub range_of_request-taken :
        (r : GetEventsRequest ScVal) (m : MemoryStore Hash) (v : IsStore m)
        → HasPlace r
        → 2 ^ 96 * v.first ≤ first_place r
        → first_place r < 2 ^ 96 * (v.first + length (contents m))
        → (taken : Range) × (validate_range m (range_of_request r) ≡ ok taken)
    range_of_request-taken r m v h low high =
        let at = start_of-place r h in
        let lo = key-ledger_start v.first in
        let hi = key-ledger_start (v.first + length (contents m)) in
        let (taken, e) =
          check_range_complete v.first (length (contents m)) (range_of_request r) v.room
            (range_of_request-Bounded r h) (inl (omega (arith, at.1, lo))) (inr refl)
            (omega (arith, at.1, lo, hi, key-max_cursor, v.room)) in
        (taken, validate_range-eq m (range_of_request r) v (omega arith) ∙ e)

    -- The events of the store from the place on.
    abbrev pub asked : GetEventsRequest ScVal → MemoryStore Hash → List (Entry Hash)
    asked r m = filter (λ e. leb (first_place r) (key e.at)) (all_entries (contents m))

    pub events_of-asked :
        (r : GetEventsRequest ScVal) (m : MemoryStore Hash)
        → IsStore m
        → HasPlace r
        → events_of (range_of_request r) (contents m) ≡ asked r m
    events_of-asked r m v h = filter_cong _ _ (all_entries (contents m)) (
        All-map_imp _ _ (all_entries (contents m))
          (λ x below.
            test_from _ _ (key x.at) _ (start_of-place r h).1
              (omega (arith, below, key-max_cursor, v.room)))
          (all_entries-below v.first (contents m) v.consecutive v.room v.ordered))
