-- ===== src/Events/Store/Entries.antt =====
-- The store seen as one list of events with their cursors, and what `Scan` does on such a list.
use soroban_rpc.Common.{
  ℕ, ◌≤◌, ◌≡◌, refl, fun_ext, inl, inr, Bool, true, false, Option, List, [], ◌∷◌, ◌++◌, ℤ, pos, ltb,
  leb, leb→le, leb→lt, lt→ltb, le→ltb, leb_ℤ, if◌then◌else◌, arith, Bool-cases, Option-cases,
  filter, filter_none, All, All-map_imp, Outcome, ok, err, none, some,
}
use soroban_rpc.Window.{LedgerBucket}
use soroban_rpc.Events.Cursor.{Cursor, cursor_cmp}
use soroban_rpc.Events.Cursor.Order.{InRange, key, cursor_cmp-key, is_at_most}
use soroban_rpc.Events.Store.{
  Event, cursor, Signal, goes_on, returns, fails, panics, ScanError, hand, told, scan_events,
  outcome_of, cannot_unmarshal,
}

-- An event as `Scan` hands it on: with its cursor and the close time of its ledger.
pub record Entry (Hash : Type 0) : Type 0 where
  pub event : Event Hash
  pub at : Cursor
  pub time : ℤ

module _ {Hash : Type 0} where
  abbrev pub entries_at : ℕ → ℤ → List (Event Hash) → List (Entry Hash)
  entries_at seq timestamp [] = []
  entries_at seq timestamp (e ∷ es) =
      record { event = e; at = cursor e seq; time = timestamp } ∷ entries_at seq timestamp es

  abbrev pub entries_of : LedgerBucket (List (Event Hash)) → List (Entry Hash)
  entries_of b = entries_at b.ledger_seq b.ledger_close_timestamp b.bucket_content

  abbrev pub all_entries : List (LedgerBucket (List (Event Hash))) → List (Entry Hash)
  all_entries [] = []
  all_entries (b ∷ bs) = entries_of b ++ all_entries bs

  -- Cursors are made of `uint32`, and do not decrease.
  abbrev pub Ascending : List (Entry Hash) → Type 0
  Ascending [] = Unit
  Ascending (x ∷ xs) = InRange x.at × All (λ y. key x.at ≤ key y.at) xs × Ascending xs

  unfoldable pub before_end : Cursor → Entry Hash → Bool
  before_end end x = ltb (key x.at) (key end)

  unfoldable pub from_start : Cursor → Entry Hash → Bool
  from_start start x = leb (key start) (key x.at)

module _ {S : Type 0} where
  abbrev pub then_scan : S × Signal → (S → S × Signal) → S × Signal
  then_scan (s, goes_on) k = k s
  then_scan (s, returns) k = (s, returns)
  then_scan (s, fails e) k = (s, fails e)
  then_scan (s, panics) k = (s, panics)

  -- The state and the result, for the last ledger of the window.
  abbrev pub result_of : ℕ → S × Signal → S × Outcome ScanError ℕ
  result_of last r = (r.0, outcome_of last r.1)

  -- What follows the answer of `f`: the rest of the events, or the end.
  abbrev pub go_on : ℕ → S × Bool → (S → S × Outcome ScanError ℕ) → S × Outcome ScanError ℕ
  go_on last (s, true) rest = rest s
  go_on last (s, false) rest = (s, ok last)

  told-result_of :
      (last : ℕ) (r : S × Bool) (k : S → S × Signal) (rest : S → S × Outcome ScanError ℕ)
      → ((t : S) → result_of last (k t) ≡ rest t)
      → result_of last (told r k) ≡ go_on last r rest
  told-result_of last (s, true) k rest h = h s
  told-result_of last (s, false) k rest h = refl

module _ {Hash Diagnostic S : Type 0} (unmarshal : List ℕ → Option Diagnostic)
    (f : S → Diagnostic → Cursor → ℤ → Hash → S × Bool) where
  -- `f` on the decoded events of a list, in order: up to the first for which it returns false, with
  -- `last` as the result, or up to one that cannot be decoded, with that error.
  unfoldable pub visit : ℕ → List (Entry Hash) → S → S × Outcome ScanError ℕ
  visit last [] s = (s, ok last)
  visit last (x ∷ xs) s = elim (unmarshal x.event.diagnostic_event_xdr) [
    | none ↦ (s, err cannot_unmarshal)
    | some d ↦ go_on last (f s d x.at x.time x.event.tx_hash) (visit last xs)
  ]

  -- The same, stopping at the end of the range.
  unfoldable pub walk : Cursor → List (Entry Hash) → S → S × Signal
  walk end [] s = (s, goes_on)
  walk end (x ∷ xs) s =
      let next = walk end xs in
      if leb_ℤ (cursor_cmp end x.at) (pos 0)
      then (s, returns)
      else hand unmarshal f x.event x.at x.time s next

  -- What the rest of a loop does comes behind one event.
  hand-then_scan :
      (e : Event Hash) (at : Cursor) (time : ℤ) (s : S) (k next : S → S × Signal)
      → hand unmarshal f e at time s (λ t. then_scan (k t) next)
        ≡ then_scan (hand unmarshal f e at time s k) next
  unfolding hand
  hand-then_scan e at time s k next = ground arith

  hand-visit :
      (x : Entry Hash) (xs : List (Entry Hash)) (s : S) (last : ℕ) (k : S → S × Signal)
      → ((t : S) → result_of last (k t) ≡ visit last xs t)
      → result_of last (hand unmarshal f x.event x.at x.time s k) ≡ visit last (x ∷ xs) s
  unfolding hand visit
  hand-visit x xs s last k h = elim (Option-cases (unmarshal x.event.diagnostic_event_xdr)) [
    | inl miss ↦ rw (miss, hand, visit)
    | inr (d, hit) ↦
        rw (hit, hand, visit)
          (told-result_of last (f s d x.at x.time x.event.tx_hash) k (visit last xs) h)
  ]

  pub scan_events-eq-walk :
      (end : Cursor) (seq : ℕ) (timestamp : ℤ) (es : List (Event Hash)) (s : S)
      → scan_events unmarshal f end seq timestamp es s ≡ walk end (entries_at seq timestamp es) s
  unfolding scan_events walk
  scan_events-eq-walk end seq timestamp [] s = refl
  scan_events-eq-walk end seq timestamp (e ∷ es) s =
      rw (fun_ext (scan_events-eq-walk end seq timestamp es))

  pub walk-append :
      (end : Cursor) (xs ys : List (Entry Hash)) (s : S)
      → walk end (xs ++ ys) s ≡ then_scan (walk end xs s) (walk end ys)
  unfolding walk
  walk-append end [] ys s = refl
  walk-append end (x ∷ xs) ys s = elim (Bool-cases (leb_ℤ (cursor_cmp end x.at) (pos 0))) [
    | inl past ↦ rw past
    | inr inside ↦
        rw (inside, fun_ext (walk-append end xs ys))
          (hand-then_scan x.event x.at x.time s (walk end xs) (walk end ys))
  ]

  -- On ascending events, stopping at the end is leaving out what lies past it.
  pub walk-eq-visit :
      (end : Cursor) (last : ℕ) (xs : List (Entry Hash)) (s : S)
      → InRange end
      → Ascending xs
      → result_of last (walk end xs s) ≡ visit last (filter (before_end end) xs) s
  unfolding walk visit before_end
  walk-eq-visit end last [] s u a = refl
  walk-eq-visit end last (x ∷ xs) s u a =
      rw (cursor_cmp-key end x.at u a.0, is_at_most (key end) (key x.at))
        (elim (Bool-cases (leb (key end) (key x.at))) [
          | inl past ↦
              let e = leb→le (key end) (key x.at) past in
              rw (
                past,
                le→ltb (key x.at) (key end) e,
                filter_none (before_end end) xs (
                    All-map_imp (λ y. key x.at ≤ key y.at) (λ y. before_end end y ≡ false) xs
                      (λ y h. le→ltb (key y.at) (key end) (omega arith)) a.1),
              )
          | inr inside ↦
              rw (inside, lt→ltb (key x.at) (key end) (leb→lt (key end) (key x.at) inside))
                (hand-visit x (filter (before_end end) xs) s last (walk end xs)
                  λ t. walk-eq-visit end last xs t u a.2)
        ])
