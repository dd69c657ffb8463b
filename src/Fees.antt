-- ===== src/Fees.antt =====
-- internal/feewindow/feewindow.go: the fees of the last ledgers and their distribution. Fees are
-- `uint64`. The lock is left out: each call runs alone under it.
pub mod Spec
pub mod Sorting
pub mod Mode
pub mod Percentile
pub mod Distribution
pub mod Windows
pub mod Ingest
pub mod Lockstep
use soroban_rpc.Common.{
  ℕ, zero, suc, ◌+◌, ◌-◌, ◌*◌, ◌/◌, ◌%◌, ◌^◌, Bool, true, false, Option, none, some, List, [], ◌∷◌,
  ◌++◌, ltb, leb, ◌==◌, if◌then◌else◌, length, get_elem?, Outcome, ok, err, panic, ◌>>=◌,
}
use soroban_rpc.Window.{LedgerBucket, LedgerBucketWindow, AppendError, new, append, get, len}

-- FeeDistribution
pub record FeeDistribution : Type 0 where
  pub max : ℕ
  pub min : ℕ
  pub mode : ℕ
  pub p10 : ℕ
  pub p20 : ℕ
  pub p30 : ℕ
  pub p40 : ℕ
  pub p50 : ℕ
  pub p60 : ℕ
  pub p70 : ℕ
  pub p80 : ℕ
  pub p90 : ℕ
  pub p95 : ℕ
  pub p99 : ℕ
  pub fee_count : ℕ
  pub ledger_count : ℕ

-- FeeDistribution{}
abbrev pub zero_distribution : FeeDistribution
zero_distribution = record {
  max = 0;
  min = 0;
  mode = 0;
  p10 = 0;
  p20 = 0;
  p30 = 0;
  p40 = 0;
  p50 = 0;
  p60 = 0;
  p70 = 0;
  p80 = 0;
  p90 = 0;
  p95 = 0;
  p99 = 0;
  fee_count = 0;
  ledger_count = 0;
}

-- slices.Sort of the standard library.
pub insert : ℕ → List ℕ → List ℕ
insert a [] = a ∷ []
insert a (x ∷ xs) = let rest = insert a xs in if leb a x then a ∷ x ∷ xs else x ∷ rest

unfoldable pub sort : List ℕ → List ℕ
unfolding insert
sort [] = []
sort (x ∷ xs) = insert x (sort xs)

-- The variables of the loop that looks for the mode.
pub record Modes : Type 0 where
  pub mode : ℕ
  pub last_val : ℕ
  pub max_repetitions : ℕ
  pub local_repetitions : ℕ

-- One round of that loop.
abbrev pub mode_step : Modes → ℕ → Modes
mode_step m fee =
    if fee == m.last_val
    then record m { local_repetitions = m.local_repetitions + 1 }
    else (if ltb m.max_repetitions m.local_repetitions
        then record {
          mode = m.last_val;
          last_val = fee;
          max_repetitions = m.local_repetitions;
          local_repetitions = 0;
        }
        else record m { last_val = fee; local_repetitions = 0 })

pub mode_loop : Modes → List ℕ → Modes
mode_loop m [] = m
mode_loop m (fee ∷ fees) = mode_loop (mode_step m fee) fees

-- The mode of a sorted slice, given its first and its last fee.
unfoldable pub mode_of : ℕ → List ℕ → ℕ → ℕ
unfolding mode_loop
mode_of first rest last =
    let m =
      mode_loop
        (record { mode = first; last_val = first; max_repetitions = 0; local_repetitions = 0 })
        rest in
    if ltb m.max_repetitions m.local_repetitions then last else m.mode

-- The closure `percentile` of computeFeeDistribution, with `uint64` arithmetic.
unfoldable pub percentile : List ℕ → ℕ → Outcome AppendError ℕ
percentile fees p =
    let kth = (p * (length fees % 2 ^ 64) % 2 ^ 64 + 100 - 1) % 2 ^ 64 / 100 in
    if kth == 0 then panic else elim (get_elem? fees (kth - 1)) [ none ↦ panic | some fee ↦ ok fee ]

-- The part of computeFeeDistribution after the sort; the slice is `first ∷ rest`.
unfoldable pub distribute : List ℕ → ℕ → Outcome AppendError FeeDistribution
unfolding percentile mode_of
distribute [] ledger_count = ok zero_distribution
distribute (first ∷ rest) ledger_count = do
  let fees = first ∷ rest
  last ← elim (get_elem? fees (length fees - 1)) [ none ↦ panic | some fee ↦ ok fee ]
  p10 ← percentile fees 10
  p20 ← percentile fees 20
  p30 ← percentile fees 30
  p40 ← percentile fees 40
  p50 ← percentile fees 50
  p60 ← percentile fees 60
  p70 ← percentile fees 70
  p80 ← percentile fees 80
  p90 ← percentile fees 90
  p95 ← percentile fees 95
  p99 ← percentile fees 99
  ok (record {
    max = last;
    min = first;
    mode = mode_of first rest last;
    p10 = p10;
    p20 = p20;
    p30 = p30;
    p40 = p40;
    p50 = p50;
    p60 = p60;
    p70 = p70;
    p80 = p80;
    p90 = p90;
    p95 = p95;
    p99 = p99;
    fee_count = length fees % 2 ^ 32;
    ledger_count = ledger_count;
  })

-- computeFeeDistribution
unfoldable pub compute_fee_distribution : List ℕ → ℕ → Outcome AppendError FeeDistribution
unfolding sort distribute
compute_fee_distribution fees ledger_count = distribute (sort fees) ledger_count

-- FeeWindow
pub record FeeWindow : Type 0 where
  pub fees_per_ledger : LedgerBucketWindow (List ℕ)
  pub distribution : FeeDistribution

-- NewFeeWindow
pub new_fee_window : ℕ → FeeWindow
unfolding new
new_fee_window retention_window = record {
  fees_per_ledger = new retention_window;
  distribution = zero_distribution;
}

-- The loop of AppendLedgerFees over the buckets: `rounds` are left, from index `i` on.
pub gather_fees : LedgerBucketWindow (List ℕ) → ℕ → ℕ → List ℕ → Outcome AppendError (List ℕ)
gather_fees w zero i all_fees = ok all_fees
gather_fees w (suc rounds) i all_fees =
    get w i >>= λ b. gather_fees w rounds (i + 1) (all_fees ++ b.bucket_content)

-- AppendLedgerFees
unfoldable pub append_ledger_fees :
    FeeWindow → LedgerBucket (List ℕ) → Outcome AppendError FeeWindow
unfolding gather_fees
append_ledger_fees fw fees = do
  r ← append fw.fees_per_ledger fees
  all_fees ← gather_fees r.1 (len r.1) 0 []
  distribution ← compute_fee_distribution all_fees (len r.1)
  ok (record { fees_per_ledger = r.1; distribution = distribution })

-- GetFeeDistribution
abbrev pub get_fee_distribution : FeeWindow → FeeDistribution
get_fee_distribution fw = fw.distribution
