-- ===== src/Events/Store/Scan.antt =====
-- `Scan` on a store in good order hands `f` exactly the events of the range, in order.
use soroban_rpc.Common.{
  ℕ, zero, suc, ◌+◌, ◌-◌, ◌%◌, ◌^◌, ◌≤◌, ◌<◌, ◌≡◌, refl, sym, ap, ap₂, fun_ext, ◌∙◌, Bool, false,
  Option, some, List, [], ◌∷◌, ℤ, ◌==◌, arith, length, get_elem?, drop, get_elem?-eq_some,
  drop-cons, drop_all, ok, err, if-err-ok,
}
use mathlib.Core.Path.{subst₂}
use soroban_rpc.Window.{LedgerBucket, get, len, add_u32}
use soroban_rpc.Window.Spec.{contents, From}
use soroban_rpc.Window.Validity.{IsShaped}
use soroban_rpc.Window.Refine.{get_refines}
use soroban_rpc.Window.Place.{length-contents, len-cap}
use soroban_rpc.Events.Cursor.{Cursor}
use soroban_rpc.Events.Store.{
  Event, MemoryStore, Range, ScanError, Signal, goes_on, returns, fails, panics, scan_bucket,
  scan_ledgers, scan, validate_range, check_range, store_is_empty,
}
use soroban_rpc.Events.Store.Bounds.{Bounded, check_range-ok, key-ledger_start}
use soroban_rpc.Events.Store.Sorted.{AllOrdered, all_entries-Ascending, filter-Ascending}
use soroban_rpc.Events.Store.Entries.{
  all_entries, from_start, visit, walk, then_scan, result_of, scan_events-eq-walk, walk-append,
  walk-eq-visit,
}
use soroban_rpc.Events.Store.Pieces.{
  key_ledger_bounds, chosen, pieces, pieces-eq-filter, events_in, events_of, events_in-Resolved,
}

module _ {Hash : Type 0} where
  -- A store in good order: `first` is the sequence of its oldest ledger.
  pub record IsStore (m : MemoryStore Hash) : Type 0 where
    pub shaped : IsShaped m
    pub first : ℕ
    pub consecutive : From first (contents m)
    pub room : first + length (contents m) < 2 ^ 32
    pub ordered : AllOrdered (contents m)

  From-head :
      (n : ℕ) (bs : List (LedgerBucket (List (Event Hash)))) (b : LedgerBucket (List (Event Hash)))
      → From n bs
      → get_elem? bs 0 ≡ some b
      → b.ledger_seq ≡ n
  From-head n [] b fr e = cc
  From-head n (x ∷ bs) b fr e = ground (arith, fr.0)

  -- The first ledger that `Scan` reads, and the checks that it made.
  validate_range-inv :
      (m : MemoryStore Hash) (range r : Range) (v : IsStore m)
      → validate_range m range ≡ ok r
      → (0 < length (contents m))
        × (b : LedgerBucket (List (Event Hash))) × (get {E = ScanError} m 0 ≡ ok b)
        × (b.ledger_seq ≡ v.first)
        × (check_range v.first (length (contents m)) range ≡ ok r)
  unfolding validate_range
  validate_range-inv m range r v e =
      let (nz, k) = if-err-ok (len m == 0) store_is_empty _ e in
      let l : len m ≡ length (contents m) = (len-cap m v.shaped).0 ∙ sym (length-contents m) in
      let pos : 0 < length (contents m) = ground (arith, nz, l) in
      let (b, at) = get_elem?-eq_some (contents m) 0 pos in
      let g : get {E = ScanError} m 0 ≡ ok b = get_refines ScanError m 0 v.shaped ∙ rw at in
      let q = From-head v.first (contents m) b v.consecutive at in
      (pos, b, g, q, subst₂ (λ c n. check_range c n range ≡ ok r) q l (rw g at k))

  -- A store that is not empty checks a range against its ledgers.
  pub validate_range-eq :
      (m : MemoryStore Hash) (range : Range) (v : IsStore m)
      → 0 < length (contents m)
      → validate_range m range ≡ check_range v.first (length (contents m)) range
  unfolding validate_range
  validate_range-eq m range v some_ledger =
      let l : len m ≡ length (contents m) = (len-cap m v.shaped).0 ∙ sym (length-contents m) in
      let (b, at) = get_elem?-eq_some (contents m) 0 some_ledger in
      let g : get {E = ScanError} m 0 ≡ ok b = get_refines ScanError m 0 v.shaped ∙ rw at in
      let q = From-head v.first (contents m) b v.consecutive at in
      let nz : (length (contents m) == 0) ≡ false = ground arith in rw (l, nz, g, q) refl

module _ {Hash Diagnostic S : Type 0} (unmarshal : List ℕ → Option Diagnostic)
    (f : S → Diagnostic → Cursor → ℤ → Hash → S × Bool) where
  scan_bucket-eq-walk :
      (r : Range) (b : LedgerBucket (List (Event Hash))) (s : S)
      → scan_bucket unmarshal f r b s ≡ walk unmarshal f r.end (chosen r b) s
  unfolding scan_bucket
  scan_bucket-eq-walk r b s =
      scan_events-eq-walk unmarshal f r.end b.ledger_seq b.ledger_close_timestamp _ s

  signal_cases :
      (p : S × Signal) (next : S → S × Signal)
      → elim p.1 as (λ _. S × Signal) [ goes_on ↦ next p.0 | stop ↦ (p.0, stop) ] ≡ then_scan p next
  signal_cases (s, goes_on) next = refl
  signal_cases (s, returns) next = refl
  signal_cases (s, fails e) next = refl
  signal_cases (s, panics) next = refl

  next_round :
      (m : MemoryStore Hash) (r : Range) (rounds i : ℕ) (s : S)
      (b : LedgerBucket (List (Event Hash)))
      → get {E = ScanError} m i ≡ ok b
      → scan_ledgers unmarshal f m r (suc rounds) i s
        ≡ then_scan (scan_bucket unmarshal f r b s) (scan_ledgers unmarshal f m r rounds (i + 1))
  unfolding scan_ledgers
  next_round m r rounds i s b e =
      rw (e, scan_ledgers)
        (signal_cases (scan_bucket unmarshal f r b s) (scan_ledgers unmarshal f m r rounds (i + 1)))

  -- The loop over the ledgers is one walk over the events that it picks.
  scan_ledgers-eq-walk :
      (m : MemoryStore Hash) (r : Range) (rounds i : ℕ) (s : S)
      → IsShaped m
      → i + rounds ≡ length (contents m)
      → scan_ledgers unmarshal f m r rounds i s
        ≡ walk unmarshal f r.end (pieces r (drop i (contents m))) s
  unfolding scan_ledgers walk
  scan_ledgers-eq-walk m r zero i s v e = rw (drop_all i (contents m) (omega arith))
  scan_ledgers-eq-walk m r (suc rounds) i s v e =
      let (b, at) = get_elem?-eq_some (contents m) i (omega arith) in
      let g : get {E = ScanError} m i ≡ ok b = get_refines ScanError m i v ∙ rw at in
      let n : i + 1 ≡ suc i = omega arith in
      next_round m r rounds i s b g
      ∙ ap₂ then_scan (scan_bucket-eq-walk r b s)
          (fun_ext λ t. scan_ledgers-eq-walk m r rounds (i + 1) t v (omega arith))
      ∙ rw (n, drop-cons i (contents m) b at)
          (sym
            (walk-append unmarshal f r.end (chosen r b) (pieces r (drop (suc i) (contents m))) s))

  scan_ledgers-eq-visit :
      (m : MemoryStore Hash) (r : Range) (n i last : ℕ) (s : S)
      → IsShaped m
      → Bounded r
      → r.start.ledger ≡ n + i
      → i < length (contents m)
      → From n (contents m)
      → n + length (contents m) < 2 ^ 32
      → AllOrdered (contents m)
      → result_of last (scan_ledgers unmarshal f m r (len m - i) i s)
        ≡ visit unmarshal f last (events_in r (contents m)) s
  scan_ledgers-eq-visit m r n i last s v b e lt fr room o =
      rw
        (
          scan_ledgers-eq-walk m r (len m - i) i s v
              (omega (arith, len-cap m v, length-contents m)),
          pieces-eq-filter r n i (contents m) b.start_range e lt fr room o,
        )
        (walk-eq-visit unmarshal f r.end last _ s b.end_range (
          filter-Ascending (from_start r.start) (all_entries (contents m))
            (all_entries-Ascending n (contents m) fr room o)))

  first_index :
      (n first count : ℕ)
      → first ≤ n
      → n < first + count
      → first + count < 2 ^ 32
      → ((n + 2 ^ 32 - first) % 2 ^ 32 ≡ n - first)
        × (add_u32 first ((count + 2 ^ 32 - 1) % 2 ^ 32) ≡ first + count - 1)
  first_index n first count h k room = (omega arith, omega arith)

  -- On a store in good order, `Scan` of a range that is taken hands `f` exactly the events of the
  -- range, decoded, in order and with their cursors, until `f` returns false or an event cannot be
  -- decoded, and returns the last ledger of the store or, in the second case, the decoding error.
  pub scan_lem :
      (m : MemoryStore Hash) (range r : Range) (s : S) (v : IsStore m)
      → Bounded range
      → validate_range m range ≡ ok r
      → scan unmarshal f m range s
        ≡ visit unmarshal f (v.first + length (contents m) - 1) (events_of range (contents m)) s
  unfolding scan
  scan_lem m range r s v b e =
      let (some_ledger, c, g, q, k) = validate_range-inv m range r v e in
      let h = check_range-ok v.first (length (contents m)) range r v.room b k in
      let lo = key-ledger_start v.first in
      let hi = key-ledger_start (v.first + length (contents m)) in
      let at = key_ledger_bounds r.start h.bounded.start_range in
      let low : v.first ≤ r.start.ledger = omega (arith, h.start_max, lo, at.1) in
      let high : r.start.ledger < v.first + length (contents m) =
        omega (arith, h.start_inside, hi, at.0) in
      let (i, last) = first_index r.start.ledger v.first (length (contents m)) low high v.room in
      let l : len m ≡ length (contents m) = (len-cap m v.shaped).0 ∙ sym (length-contents m) in
      let end : add_u32 v.first ((len m + 2 ^ 32 - 1) % 2 ^ 32)
          ≡ v.first + length (contents m) - 1 =
        rw l last in
      let start = r.start.ledger - v.first in
      rw (e, g, scan, q, i)
        (ap (λ n. result_of n (scan_ledgers unmarshal f m r (len m - start) start s)) end
          ∙ scan_ledgers-eq-visit m r v.first start _ s v.shaped h.bounded (omega arith)
              (omega arith) v.consecutive v.room v.ordered
          ∙ ap (λ xs. visit unmarshal f (v.first + length (contents m) - 1) xs s)
              (events_in-Resolved range r v.first (contents m) h v.consecutive v.room v.ordered))

  -- `Scan` of a range that is not taken returns the error and calls `f` for no event.
  pub scan_refused :
      (m : MemoryStore Hash) (range : Range) (e : ScanError) (s : S)
      → validate_range m range ≡ err e
      → scan unmarshal f m range s ≡ (s, err e)
  unfolding scan
  scan_refused m range e s h = rw (h, scan)
