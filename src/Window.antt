-- ===== src/Window.antt =====
-- internal/ledgerbucketwindow/ledgerbucketwindow.go: the circular buffer of the last ledgers.
-- `uint32` arithmetic keeps its wrap-around; a slice index out of range is a panic.
pub mod Spec
pub mod Validity
pub mod Place
pub mod Refine
pub mod Invariant
pub mod Run
use soroban_rpc.Common.{
  ℕ, ◌+◌, ◌-◌, ◌%◌, ◌^◌, Option, none, some, List, [], ◌∷◌, ◌++◌, ℤ, pos, ltb, leb, ◌==◌,
  if◌then◌else◌, length, get_elem?, set, Outcome, ok, err, panic, ◌>>=◌,
}

-- LedgerBucket
pub record LedgerBucket {ℓ} (T : Type ℓ) : Type ℓ where
  pub ledger_seq : ℕ
  pub ledger_close_timestamp : ℤ
  pub bucket_content : T

-- LedgerBucketWindow; `cap` is the capacity that `make` gives the slice.
pub record LedgerBucketWindow {ℓ} (T : Type ℓ) : Type ℓ where
  pub buckets : List (LedgerBucket T)
  pub cap : ℕ
  pub start : ℕ

-- The error of `Append`: the expected and the received sequence.
pub data AppendError : Type 0 where
  not_contiguous : ℕ → ℕ → AppendError

pub record LedgerInfo : Type 0 where
  pub sequence : ℕ
  pub close_time : ℤ

pub record LedgerRange : Type 0 where
  pub first_ledger : LedgerInfo
  pub last_ledger : LedgerInfo

-- LedgerRange{}
abbrev pub zero_range : LedgerRange
zero_range = record {
  first_ledger = record { sequence = 0; close_time = pos 0 };
  last_ledger = record { sequence = 0; close_time = pos 0 };
}

abbrev pub add_u32 : ℕ → ℕ → ℕ
add_u32 a b = (a + b) % 2 ^ 32

module _ {ℓ} {T : Type ℓ} where
  -- NewLedgerBucketWindow
  unfoldable pub new : ℕ → LedgerBucketWindow T
  new retention_window = record { buckets = []; cap = retention_window; start = 0 }

  -- Len
  abbrev pub len : LedgerBucketWindow T → ℕ
  len w = length w.buckets % 2 ^ 32

  -- The write of `Append` over the oldest bucket.
  unfoldable pub overwrite :
      LedgerBucketWindow T
      → LedgerBucket T
      → Outcome AppendError (Option (LedgerBucket T) × LedgerBucketWindow T)
  overwrite w bucket = elim (get_elem? w.buckets w.start) [
    | none ↦ panic
    | some saved ↦ ok (
      some saved,
      record w { buckets = set w.buckets w.start bucket; start = add_u32 w.start 1 % len w },
    )
  ]

  -- `Append` behind the test of contiguity.
  unfoldable pub place :
      LedgerBucketWindow T
      → LedgerBucket T
      → Outcome AppendError (Option (LedgerBucket T) × LedgerBucketWindow T)
  unfolding overwrite
  place w bucket =
      if ltb (len w) (w.cap % 2 ^ 32)
      then ok (none, record w { buckets = w.buckets ++ (bucket ∷ []) })
      else overwrite w bucket

  -- Append
  unfoldable pub append :
      LedgerBucketWindow T
      → LedgerBucket T
      → Outcome AppendError (Option (LedgerBucket T) × LedgerBucketWindow T)
  unfolding place
  append w bucket =
      if ltb 0 (len w)
      then elim (get_elem? w.buckets w.start) [
        | none ↦ panic
        | some head ↦
            if add_u32 head.ledger_seq (len w) == bucket.ledger_seq
            then place w bucket
            else err (not_contiguous (add_u32 head.ledger_seq (len w)) bucket.ledger_seq)
      ]
      else place w bucket

  -- Get; the panic is the source's own, or that of the index expression.
  unfoldable pub get {κ} : {E : Type κ} → LedgerBucketWindow T → ℕ → Outcome E (LedgerBucket T)
  get w i =
      if leb (len w) i then panic else elim (get_elem? w.buckets (add_u32 w.start i % len w)) [
        | none ↦ panic
        | some bucket ↦ ok bucket
      ]

  abbrev pub info_of : LedgerBucket T → LedgerInfo
  info_of b = record { sequence = b.ledger_seq; close_time = b.ledger_close_timestamp }

  -- GetLedgerRange
  unfoldable pub get_ledger_range {κ} : {E : Type κ} → LedgerBucketWindow T → Outcome E LedgerRange
  get_ledger_range w = if len w == 0 then ok zero_range else do
    first ← get w 0
    last ← get w (len w - 1)
    ok (record { first_ledger = info_of first; last_ledger = info_of last })
