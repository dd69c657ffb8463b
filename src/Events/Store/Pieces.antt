-- ===== src/Events/Store/Pieces.antt =====
-- The events that the loops of `Scan` come to, ledger by ledger, are those of the range.
use soroban_rpc.Common.{
  ℕ, zero, suc, ◌+◌, ◌*◌, ◌^◌, ◌≤◌, ◌<◌, ◌≡◌, refl, sym, ap, ◌∙◌, inl, inr, true, false, List, [],
  ◌∷◌, ◌++◌, ℤ, ltb, leb, le→leb, lt→leb, ◌==◌, ==_iff, ◌&&◌, if◌then◌else◌, arith, Bool-cases,
  length, drop, filter, filter-append, filter-All, filter_none, filter-filter, filter_cong,
  All-both, All-map_imp,
}
use soroban_rpc.Window.{LedgerBucket, add_u32}
use soroban_rpc.Window.Spec.{From}
use soroban_rpc.Events.Cursor.{Cursor}
use soroban_rpc.Events.Cursor.Order.{InRange, key}
use soroban_rpc.Events.Store.{Event, cursor, Range, seek, ledger_start}
use soroban_rpc.Events.Store.Seek.{Ordered, key-place, at_or_after, at_or_after-key, seek-eq-filter}
use soroban_rpc.Events.Store.Bounds.{Resolved, key-ledger_start}
use soroban_rpc.Events.Store.Sorted.{
  AllOrdered, entries_at-bounds, all_entries-above, all_entries-below,
}
use soroban_rpc.Events.Store.Entries.{
  Entry, entries_at, entries_of, all_entries, before_end, from_start,
}

pub key_ledger_bounds :
    (c : Cursor) → InRange c → (2 ^ 96 * c.ledger ≤ key c) × (key c < 2 ^ 96 * suc c.ledger)
unfolding key
key_ledger_bounds c u = (omega arith, omega arith)

module _ {Hash : Type 0} where
  abbrev pub chosen : Range → LedgerBucket (List (Event Hash)) → List (Entry Hash)
  chosen r b =
      entries_at b.ledger_seq b.ledger_close_timestamp
        (if b.ledger_seq == r.start.ledger then seek b.bucket_content r.start else b.bucket_content)

  abbrev pub pieces : Range → List (LedgerBucket (List (Event Hash))) → List (Entry Hash)
  pieces r [] = []
  pieces r (b ∷ bs) = chosen r b ++ pieces r bs

  -- In the ledger where the range starts, the events that `seek` keeps are those from the start on.
  pub entries_at-filter :
      (start : Cursor) (seq : ℕ) (t : ℤ) (es : List (Event Hash))
      → InRange start
      → seq ≡ start.ledger
      → Ordered es
      → filter (from_start start) (entries_at seq t es)
        ≡ entries_at seq t (filter (at_or_after start) es)
  unfolding from_start
  entries_at-filter start seq t [] u e o = refl
  entries_at-filter start seq t (d ∷ es) u e o =
      let x : Entry Hash = record { event = d; at = cursor d seq; time = t } in
      let same : at_or_after start d ≡ leb (key start) (key (cursor d seq)) =
        at_or_after-key start d u o.0 o.1 ∙ rw (key-place d seq, e) in
      elim (Bool-cases (at_or_after start d)) [
        | inl h ↦ rw (h, sym same ∙ h) (ap (◌∷◌ x) (entries_at-filter start seq t es u e o.3))
        | inr h ↦ rw (h, sym same ∙ h) (entries_at-filter start seq t es u e o.3)
      ]

  -- Later ledgers lie after the start as a whole.
  pub pieces-after :
      (r : Range) (n : ℕ) (bs : List (LedgerBucket (List (Event Hash))))
      → r.start.ledger < n
      → From n bs
      → n + length bs < 2 ^ 32
      → pieces r bs ≡ all_entries bs
  pieces-after r n [] lt f room = refl
  pieces-after r n (b ∷ bs) lt f room =
      let step : add_u32 n 1 ≡ suc n = omega arith in
      let other : (b.ledger_seq == r.start.ledger) ≡ false = ground (arith, f.0) in
      rw (other, pieces-after r (suc n) bs (omega arith) (rw step at f.1) (omega arith))

  -- From the ledger on where the range starts, the loop reads the events from the start on.
  pub pieces-eq-filter :
      (r : Range) (n i : ℕ) (bs : List (LedgerBucket (List (Event Hash))))
      → InRange r.start
      → r.start.ledger ≡ n + i
      → i < length bs
      → From n bs
      → n + length bs < 2 ^ 32
      → AllOrdered bs
      → pieces r (drop i bs) ≡ filter (from_start r.start) (all_entries bs)
  unfolding from_start
  pieces-eq-filter r n i [] u e h f room o = elim h [ ]
  pieces-eq-filter r n zero (b ∷ bs) u e h f room o =
      let step : add_u32 n 1 ≡ suc n = omega arith in
      let here : b.ledger_seq ≡ r.start.ledger = omega (arith, f.0) in
      let hit : (b.ledger_seq == r.start.ledger) ≡ true =
        (==_iff b.ledger_seq r.start.ledger).1 here in
      let k = key_ledger_bounds r.start u in
      rw (
        hit,
        pieces-after r (suc n) bs (omega arith) (rw step at f.1) (omega arith),
        seek-eq-filter r.start b.bucket_content u o.0,
        filter-append (from_start r.start) (entries_of b) (all_entries bs),
        entries_at-filter r.start b.ledger_seq b.ledger_close_timestamp b.bucket_content u here o.0,
        filter-All (from_start r.start) (all_entries bs) (
            All-map_imp _ _ (all_entries bs) (λ x l. le→leb _ _ (omega (arith, k.1, l)))
              (all_entries-above (suc n) bs (rw step at f.1) (omega arith) o.1)),
      )
  pieces-eq-filter r n (suc i) (b ∷ bs) u e h f room o =
      let step : add_u32 n 1 ≡ suc n = omega arith in
      let k = key_ledger_bounds r.start u in
      rw (
        pieces-eq-filter r (suc n) i bs u (omega arith) (omega arith) (rw step at f.1) (omega arith)
            o.1,
        filter-append (from_start r.start) (entries_of b) (all_entries bs),
        filter_none (from_start r.start) (entries_of b) (
            All-map_imp _ _ (entries_of b) (λ x l. lt→leb _ _ (omega (arith, f.0, k.0, l.1)))
              (entries_at-bounds b.ledger_seq b.ledger_close_timestamp b.bucket_content o.0)),
      )

  pub same_test :
      (r r' : Range) (n count : ℕ) (x : Entry Hash)
      → Resolved (ledger_start n) (ledger_start (n + count)) r r'
      → 2 ^ 96 * n ≤ key x.at
      → key x.at < 2 ^ 96 * (n + count)
      → (from_start r'.start x && before_end r'.end x)
        ≡ (leb (key r.start) (key x.at) && ltb (key x.at) (key r.end))
  unfolding before_end from_start
  same_test r r' n count x h lo hi =
      ground (arith, key-ledger_start n, key-ledger_start (n + count), h.start_max, h.end_min)

  abbrev pub events_in : Range → List (LedgerBucket (List (Event Hash))) → List (Entry Hash)
  events_in r bs = filter (before_end r.end) (filter (from_start r.start) (all_entries bs))

  -- The events at or after the start of a range and before its end.
  abbrev pub events_of : Range → List (LedgerBucket (List (Event Hash))) → List (Entry Hash)
  events_of r bs =
      filter (λ x. leb (key r.start) (key x.at) && ltb (key x.at) (key r.end)) (all_entries bs)

  -- Moving the ends of a range to those of the ledgers changes no event in it.
  pub events_in-Resolved :
      (r r' : Range) (n : ℕ) (bs : List (LedgerBucket (List (Event Hash))))
      → Resolved (ledger_start n) (ledger_start (n + length bs)) r r'
      → From n bs
      → n + length bs < 2 ^ 32
      → AllOrdered bs
      → events_in r' bs ≡ events_of r bs
  unfolding before_end from_start
  events_in-Resolved r r' n bs h f room o =
      filter-filter (before_end r'.end) (from_start r'.start) (all_entries bs)
      ∙ filter_cong _ _ (all_entries bs) (
          All-map_imp _ _ (all_entries bs) (λ x k. same_test r r' n (length bs) x h k.0 k.1)
            (All-both _ _ (all_entries bs) (all_entries-above n bs f room o)
              (all_entries-below n bs f room o)))
