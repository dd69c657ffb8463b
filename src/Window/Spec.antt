-- ===== src/Window/Spec.antt =====
-- What a window of ledgers promises: the last `cap` buckets, oldest first, with sequences that
-- follow one another.
use soroban_rpc.Common.{
  ℕ, ◌-◌, ◌^◌, ◌<◌, ◌≡◌, Option, none, some, List, [], ◌∷◌, ◌++◌, ltb, ◌==◌, if◌then◌else◌, length,
  take, drop, Outcome, ok, err, panic,
}
use soroban_rpc.Window.{
  LedgerBucket, LedgerBucketWindow, AppendError, not_contiguous, LedgerRange, zero_range, info_of,
  add_u32,
}

module _ {ℓ} {T : Type ℓ} where
  -- The buckets from the oldest to the newest.
  abbrev pub contents : LedgerBucketWindow T → List (LedgerBucket T)
  contents w = drop w.start w.buckets ++ take w.start w.buckets

  -- The sequences count up from `n`.
  abbrev pub From : ℕ → List (LedgerBucket T) → Type 0
  From n [] = Unit
  From n (b ∷ bs) = (b.ledger_seq ≡ n) × From (add_u32 n 1) bs

  abbrev pub Contiguous : List (LedgerBucket T) → Type 0
  Contiguous [] = Unit
  Contiguous (b ∷ bs) = (b.ledger_seq < 2 ^ 32) × From (add_u32 b.ledger_seq 1) bs

  -- The sequence that the next bucket must have; an empty window takes any.
  abbrev pub expected : List (LedgerBucket T) → ℕ → ℕ
  expected [] seq = seq
  expected (x ∷ xs) seq = add_u32 x.ledger_seq (length (x ∷ xs))

  abbrev pub shift :
      List (LedgerBucket T) → LedgerBucket T → Option (LedgerBucket T) × List (LedgerBucket T)
  shift [] b = (none, b ∷ [])
  shift (x ∷ xs) b = (some x, xs ++ (b ∷ []))

  -- At most `cap` buckets: a full window loses its oldest.
  abbrev pub slide :
      ℕ → List (LedgerBucket T) → LedgerBucket T → Option (LedgerBucket T) × List (LedgerBucket T)
  slide cap xs b = if ltb (length xs) cap then (none, xs ++ (b ∷ [])) else shift xs b

  abbrev pub slide_next :
      ℕ
      → List (LedgerBucket T)
      → LedgerBucket T
      → Outcome AppendError (Option (LedgerBucket T) × List (LedgerBucket T))
  slide_next cap xs b =
      if expected xs b.ledger_seq == b.ledger_seq
      then ok (slide cap xs b)
      else err (not_contiguous (expected xs b.ledger_seq) b.ledger_seq)

  abbrev pub last_of : LedgerBucket T → List (LedgerBucket T) → LedgerBucket T
  last_of x [] = x
  last_of x (y ∷ ys) = last_of y ys

  abbrev pub range_of : List (LedgerBucket T) → LedgerRange
  range_of [] = zero_range
  range_of (x ∷ xs) = record { first_ledger = info_of x; last_ledger = info_of (last_of x xs) }

  -- A result of `Append`, its window seen through `contents`.
  abbrev pub view :
      Outcome AppendError (Option (LedgerBucket T) × LedgerBucketWindow T)
      → Outcome AppendError (Option (LedgerBucket T) × List (LedgerBucket T))
  view (ok (evicted, w)) = ok (evicted, contents w)
  view (err e) = err e
  view panic = panic

-- The last `n` of a list.
abbrev pub last_n {ℓ} : {A : Type ℓ} → ℕ → List A → List A
last_n n xs = drop (length xs - n) xs
