-- ===== src/Events/Store.antt =====
-- internal/events/events.go: the in-memory store of events, one bucket of events for each ledger.
-- The lock and the metrics are left out: each call runs alone under the lock. Events hold their
-- XDR as bytes, which `unmarshal` decodes (xdr.SafeUnmarshal, a parameter).
pub mod Search
pub mod Seek
pub mod Bounds
pub mod Refused
pub mod Entries
pub mod Sorted
pub mod Pieces
pub mod Scan
pub mod Ingest
pub mod Arrival
pub mod Kept
use soroban_rpc.Common.{
  ℕ, zero, suc, ◌+◌, ◌-◌, ◌/◌, ◌%◌, ◌^◌, Bool, true, false, Option, none, some, List, [], ◌∷◌, ℤ,
  pos, ltb, leb, ltb_ℤ, leb_ℤ, ◌==◌, if◌then◌else◌, length, get_elem?, drop, Outcome, ok, err,
  panic, ◌>>=◌,
}
use soroban_rpc.Window.{LedgerBucket, LedgerBucketWindow, len, get, add_u32}
use soroban_rpc.Window
use soroban_rpc.Events.Cursor.{Cursor, cursor_cmp}

-- event
pub record Event (Hash : Type 0) : Type 0 where
  pub diagnostic_event_xdr : List ℕ
  pub tx_index : ℕ
  pub event_index : ℕ
  pub tx_hash : Hash

-- event.cursor
abbrev pub cursor : {Hash : Type 0} → Event Hash → ℕ → Cursor
cursor e ledger_seq = record { ledger = ledger_seq; tx = e.tx_index; op = 0; event = e.event_index }

-- MemoryStore, less the passphrase and the metrics.
abbrev pub MemoryStore : Type 0 → Type 0
MemoryStore Hash = LedgerBucketWindow (List (Event Hash))

-- Range
pub record Range : Type 0 where
  pub start : Cursor
  pub clamp_start : Bool
  pub end : Cursor
  pub clamp_end : Bool

pub data ScanError : Type 0 where
  store_is_empty : ScanError
  start_before_oldest : ScanError
  start_after_newest : ScanError
  end_after_latest : ScanError
  start_not_before_end : ScanError
  cannot_unmarshal : ScanError

abbrev pub ledger_start : ℕ → Cursor
ledger_start seq = record { ledger = seq; tx = 0; op = 0; event = 0 }

-- The steps of `validateRange` that may move an end of the range.
abbrev pub clamp_low : Range → Cursor → Outcome ScanError Range
clamp_low r lowest =
    if ltb_ℤ (cursor_cmp r.start lowest) (pos 0)
    then (if r.clamp_start then ok (record r { start = lowest }) else err start_before_oldest)
    else ok r

abbrev pub clamp_high : Range → Cursor → Outcome ScanError Range
clamp_high r highest =
    if ltb_ℤ (pos 0) (cursor_cmp r.end highest)
    then (if r.clamp_end then ok (record r { end = highest }) else err end_after_latest)
    else ok r

-- The last test of `validateRange`, the tests and the clamp before it, and all of them: what it does
-- with the sequence of the oldest ledger and the number of ledgers.
abbrev pub check_order : Range → Outcome ScanError Range
check_order r = if leb_ℤ (pos 0) (cursor_cmp r.start r.end) then err start_not_before_end else ok r

abbrev pub check_end : Cursor → Range → Outcome ScanError Range
check_end highest r =
    if leb_ℤ (pos 0) (cursor_cmp r.start highest)
    then err start_after_newest
    else (clamp_high r highest >>= check_order)

unfoldable pub check_range : ℕ → ℕ → Range → Outcome ScanError Range
check_range first count r =
    clamp_low r (ledger_start first) >>= check_end (ledger_start (add_u32 first count))

-- sort.Search of the standard library: `f` is asked about indices of [i, j) only.
unfoldable pub search_from : ℕ → ℕ → ℕ → (ℕ → Bool) → ℕ
search_from zero i j f = i
search_from (suc fuel) i j f =
    let h = (i + j) / 2 in
    let left = search_from fuel i h f in
    let right = search_from fuel (h + 1) j f in if ltb i j then (if f h then left else right) else i

unfoldable pub search : ℕ → (ℕ → Bool) → ℕ
search n f = search_from n 0 n f

module _ {Hash : Type 0} where
  -- validateRange
  unfoldable pub validate_range : MemoryStore Hash → Range → Outcome ScanError Range
  validate_range m r =
      if len m == 0
      then err store_is_empty
      else (get m 0 >>= λ first. check_range first.ledger_seq (len m) r)

  -- The test that `seek` passes to sort.Search.
  unfoldable pub reached : List (Event Hash) → Cursor → ℕ → Bool
  reached events c i = elim (get_elem? events i) [
    | none ↦ false
    | some e ↦ leb_ℤ (cursor_cmp c (cursor e c.ledger)) (pos 0)
  ]

  -- seek
  unfoldable pub seek : List (Event Hash) → Cursor → List (Event Hash)
  seek events c = drop (search (length events) (reached events c)) events

-- How a part of the loops of `Scan` ends: the loops go on, or `Scan` returns.
pub data Signal : Type 0 where
  goes_on : Signal
  returns : Signal
  fails : ScanError → Signal
  panics : Signal

-- What `Scan` returns for the way its loops end.
abbrev pub outcome_of : ℕ → Signal → Outcome ScanError ℕ
outcome_of last goes_on = ok last
outcome_of last returns = ok last
outcome_of last (fails e) = err e
outcome_of last panics = panic

-- The scan goes on if `f` returned true.
abbrev pub told : {S : Type 0} → S × Bool → (S → S × Signal) → S × Signal
told (s, true) next = next s
told (s, false) next = (s, returns)

module _ {Hash Diagnostic S : Type 0} (unmarshal : List ℕ → Option Diagnostic)
    (f : S → Diagnostic → Cursor → ℤ → Hash → S × Bool) where
  -- The body of the innermost loop of `Scan` from the decoding on; `f` carries its state along, and
  -- `next` is the rest of the loop.
  unfoldable pub hand : Event Hash → Cursor → ℤ → S → (S → S × Signal) → S × Signal
  hand e cur timestamp s next = elim (unmarshal e.diagnostic_event_xdr) [
    | none ↦ (s, fails cannot_unmarshal)
    | some d ↦ told (f s d cur timestamp e.tx_hash) next
  ]

  -- The loop of `Scan` over the events of one bucket.
  unfoldable pub scan_events : Cursor → ℕ → ℤ → List (Event Hash) → S → S × Signal
  unfolding hand
  scan_events end seq timestamp [] s = (s, goes_on)
  scan_events end seq timestamp (e ∷ es) s =
      let next = scan_events end seq timestamp es in
      if leb_ℤ (cursor_cmp end (cursor e seq)) (pos 0)
      then (s, returns)
      else hand e (cursor e seq) timestamp s next

  -- One round of the loop of `Scan` over the ledgers.
  unfoldable pub scan_bucket : Range → LedgerBucket (List (Event Hash)) → S → S × Signal
  scan_bucket r b s =
      scan_events r.end b.ledger_seq b.ledger_close_timestamp
        (if b.ledger_seq == r.start.ledger then seek b.bucket_content r.start else b.bucket_content)
        s

  -- The loop of `Scan` over the ledgers: `rounds` are left, from index `i` on.
  unfoldable pub scan_ledgers : MemoryStore Hash → Range → ℕ → ℕ → S → S × Signal
  scan_ledgers m r zero i s = (s, goes_on)
  scan_ledgers m r (suc rounds) i s = elim (get {E = ScanError} m i) [
    | ok b ↦ elim (scan_bucket r b s).1 [
      | goes_on ↦ scan_ledgers m r rounds (i + 1) (scan_bucket r b s).0
      | stop ↦ ((scan_bucket r b s).0, stop)
    ]
    | _ ↦ (s, panics)
  ]

  -- Scan: the state that `f` leaves, and the last ledger in the window or the error.
  unfoldable pub scan : MemoryStore Hash → Range → S → S × Outcome ScanError ℕ
  scan m range s = elim (validate_range m range) [
    | err e ↦ (s, err e)
    | panic ↦ (s, panic)
    | ok r ↦ elim (get {E = ScanError} m 0) [
      | ok first ↦
          let i = (r.start.ledger + 2 ^ 32 - first.ledger_seq) % 2 ^ 32 in
          let (s', signal) = scan_ledgers m r (len m - i) i s in
          (s', outcome_of (add_u32 first.ledger_seq ((len m + 2 ^ 32 - 1) % 2 ^ 32)) signal)
      | _ ↦ (s, panic)
    ]
  ]
