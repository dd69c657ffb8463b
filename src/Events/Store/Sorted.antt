-- ===== src/Events/Store/Sorted.antt =====
-- The events of a store whose ledgers follow one another and whose buckets are in order.
use soroban_rpc.Common.{
  ℕ, suc, ◌+◌, ◌*◌, ◌^◌, ◌≤◌, ◌<◌, ◌≡◌, inl, inr, Bool, List, [], ◌∷◌, ◌++◌, ℤ, arith, Bool-cases,
  length, filter, All, All-append, All-filter, All-map_imp,
}
use soroban_rpc.Window.{LedgerBucket, add_u32}
use soroban_rpc.Window.Spec.{From}
use soroban_rpc.Events.Cursor.Order.{key}
use soroban_rpc.Events.Store.{Event, cursor}
use soroban_rpc.Events.Store.Seek.{Ordered, place, key-place, cursor-InRange}
use soroban_rpc.Events.Store.Entries.{Entry, entries_at, entries_of, all_entries, Ascending}

module _ {Hash : Type 0} where
  abbrev pub AllOrdered : List (LedgerBucket (List (Event Hash))) → Type 0
  AllOrdered bs = All (λ b. Ordered b.bucket_content) bs

  -- The cursors of one ledger lie between its number and the next.
  pub entries_at-bounds :
      (seq : ℕ) (t : ℤ) (es : List (Event Hash))
      → Ordered es
      → All (λ x. (2 ^ 96 * seq ≤ key x.at) × (key x.at < 2 ^ 96 * suc seq)) (entries_at seq t es)
  unfolding key
  entries_at-bounds seq t [] o = tt
  entries_at-bounds seq t (e ∷ es) o = ((omega arith, omega arith), entries_at-bounds seq t es o.3)

  pub all_entries-above :
      (n : ℕ) (bs : List (LedgerBucket (List (Event Hash))))
      → From n bs
      → n + length bs < 2 ^ 32
      → AllOrdered bs
      → All (λ x. 2 ^ 96 * n ≤ key x.at) (all_entries bs)
  all_entries-above n [] f room o = tt
  all_entries-above n (b ∷ bs) f room o =
      let step : add_u32 n 1 ≡ suc n = omega arith in
      All-append _ (entries_of b) (all_entries bs)
        (All-map_imp _ _ (entries_of b) (λ x h. omega (arith, f.0, h.0, h.1))
          (entries_at-bounds b.ledger_seq b.ledger_close_timestamp b.bucket_content o.0))
        (All-map_imp _ _ (all_entries bs) (λ x h. omega (arith, h))
          (all_entries-above (suc n) bs (rw step at f.1) (omega arith) o.1))

  pub all_entries-below :
      (n : ℕ) (bs : List (LedgerBucket (List (Event Hash))))
      → From n bs
      → n + length bs < 2 ^ 32
      → AllOrdered bs
      → All (λ x. key x.at < 2 ^ 96 * (n + length bs)) (all_entries bs)
  all_entries-below n [] f room o = tt
  all_entries-below n (b ∷ bs) f room o =
      let step : add_u32 n 1 ≡ suc n = omega arith in
      All-append _ (entries_of b) (all_entries bs)
        (All-map_imp _ _ (entries_of b) (λ x h. omega (arith, f.0, h.0, h.1))
          (entries_at-bounds b.ledger_seq b.ledger_close_timestamp b.bucket_content o.0))
        (All-map_imp _ _ (all_entries bs) (λ x h. omega (arith, h))
          (all_entries-below (suc n) bs (rw step at f.1) (omega arith) o.1))

  entries_at-All :
      (seq : ℕ) (t : ℤ) (e : Event Hash) (es : List (Event Hash))
      → All (λ e'. place e ≤ place e') es
      → All (λ y. key (cursor e seq) ≤ key y.at) (entries_at seq t es)
  entries_at-All seq t e [] h = tt
  entries_at-All seq t e (d ∷ es) h =
      (omega (arith, key-place e seq, key-place d seq, h.0), entries_at-All seq t e es h.1)

  entries_at-Ascending :
      (seq : ℕ) (t : ℤ) (es : List (Event Hash))
      → seq < 2 ^ 32
      → Ordered es
      → Ascending (entries_at seq t es)
  entries_at-Ascending seq t [] h o = tt
  entries_at-Ascending seq t (e ∷ es) h o = (
    cursor-InRange e seq o.0 o.1 h,
    entries_at-All seq t e es o.2,
    entries_at-Ascending seq t es h o.3,
  )

  Ascending-append :
      (xs ys : List (Entry Hash)) (n : ℕ)
      → Ascending xs
      → Ascending ys
      → All (λ x. key x.at < n) xs
      → All (λ y. n ≤ key y.at) ys
      → Ascending (xs ++ ys)
  Ascending-append [] ys n a b h k = b
  Ascending-append (x ∷ xs) ys n a b h k = (
    a.0,
    All-append (λ y. key x.at ≤ key y.at) xs ys a.1
        (All-map_imp _ _ ys (λ y l. omega (arith, l, h.0)) k),
    Ascending-append xs ys n a.2 b h.1 k,
  )

  -- The events of a store in good order ascend.
  pub all_entries-Ascending :
      (n : ℕ) (bs : List (LedgerBucket (List (Event Hash))))
      → From n bs
      → n + length bs < 2 ^ 32
      → AllOrdered bs
      → Ascending (all_entries bs)
  all_entries-Ascending n [] f room o = tt
  all_entries-Ascending n (b ∷ bs) f room o =
      let step : add_u32 n 1 ≡ suc n = omega arith in
      Ascending-append (entries_of b) (all_entries bs) (2 ^ 96 * suc n)
        (entries_at-Ascending b.ledger_seq b.ledger_close_timestamp b.bucket_content
          (omega (arith, f.0)) o.0)
        (all_entries-Ascending (suc n) bs (rw step at f.1) (omega arith) o.1)
        (All-map_imp _ _ (entries_of b) (λ x h. omega (arith, f.0, h.1))
          (entries_at-bounds b.ledger_seq b.ledger_close_timestamp b.bucket_content o.0))
        (all_entries-above (suc n) bs (rw step at f.1) (omega arith) o.1)

  pub filter-Ascending :
      (p : Entry Hash → Bool) (xs : List (Entry Hash)) → Ascending xs → Ascending (filter p xs)
  filter-Ascending p [] a = tt
  filter-Ascending p (x ∷ xs) a = elim (Bool-cases (p x)) [
    | inl h ↦ rw h (a.0, All-filter _ p xs a.1, filter-Ascending p xs a.2)
    | inr h ↦ rw h (filter-Ascending p xs a.2)
  ]
