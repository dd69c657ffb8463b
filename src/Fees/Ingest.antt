-- ===== src/Fees/Ingest.antt =====
-- FeeWindows and IngestFees of internal/feewindow/feewindow.go. What the ledger reader hands out
-- is a list of reads; the signed sums of resource fees are kept as their `uint64` bit patterns.
use soroban_rpc.Common.{
  ℕ, ◌+◌, ◌-◌, ◌/◌, ◌%◌, ◌^◌, Bool, true, false, Option, none, some, List, [], ◌∷◌, ◌++◌, ℤ, ◌||◌,
  not, ◌==◌, if◌then◌else◌, length, Outcome, ok, err, panic,
}
use soroban_rpc.Window.{LedgerBucket, AppendError}
use soroban_rpc.Fees.{FeeWindow, new_fee_window, append_ledger_fees}

pub data OperationType : Type 0 where
  invoke_host_function : OperationType
  extend_footprint_ttl : OperationType
  restore_footprint : OperationType
  other_operation : OperationType

-- The fields of SorobanTransactionMeta that are read.
pub record SorobanMeta : Type 0 where
  pub ext_v : ℕ
  pub total_non_refundable_resource_fee_charged : ℕ
  pub total_refundable_resource_fee_charged : ℕ

-- The parts of an ingested transaction that IngestFees looks at.
pub record FeeTransaction : Type 0 where
  pub fee_charged : ℕ
  pub operations : List OperationType
  pub meta_v : ℕ
  pub soroban_meta : Option SorobanMeta

-- What one round of the loop adds: to the fees of Soroban, to the classic ones, or nothing.
pub data Charge : Type 0 where
  soroban : ℕ → Charge
  classic : ℕ → Charge
  skipped : Charge

abbrev pub is_soroban : OperationType → Bool
is_soroban other_operation = false
is_soroban _ = true

abbrev pub inclusion_fee : ℕ → ℕ → Option SorobanMeta → Charge
inclusion_fee fee v none = skipped
inclusion_fee fee v (some m) =
    if not (v == 3) || not (m.ext_v == 1)
    then skipped
    else soroban (
        (fee
          + 2 ^ 64
          - (m.total_non_refundable_resource_fee_charged + m.total_refundable_resource_fee_charged)
            % 2 ^ 64)
        % 2 ^ 64)

abbrev pub fee_per_op : ℕ → List OperationType → Charge
fee_per_op fee ops = classic (fee / length ops)

unfoldable pub charge : FeeTransaction → Charge
charge tx = elim tx.operations [
  | [] ↦ skipped
  | op ∷ [] ↦
      if is_soroban op
      then inclusion_fee tx.fee_charged tx.meta_v tx.soroban_meta
      else fee_per_op tx.fee_charged tx.operations
  | op ∷ next ∷ ops ↦ fee_per_op tx.fee_charged tx.operations
]

pub data Read : Type 0 where
  transaction : FeeTransaction → Read
  read_error : Read

pub data IngestError : Type 0 where
  reader_error : IngestError
  append_error : AppendError → IngestError

-- The fees of Soroban and the classic fees, in the order of the transactions.
abbrev pub add_charge : Charge → List ℕ × List ℕ → List ℕ × List ℕ
add_charge (soroban fee) (s, c) = (s ++ (fee ∷ []), c)
add_charge (classic fee) (s, c) = (s, c ++ (fee ∷ []))
add_charge skipped (s, c) = (s, c)

-- The loop over the transactions.
unfoldable pub read_fees : List Read → List ℕ × List ℕ → Outcome IngestError (List ℕ × List ℕ)
unfolding charge
read_fees [] fees = ok fees
read_fees (read_error ∷ reads) fees = err reader_error
read_fees (transaction tx ∷ reads) fees = read_fees reads (add_charge (charge tx) fees)

-- FeeWindows, less the passphrase.
pub record FeeWindows : Type 0 where
  pub soroban_inclusion_fee_window : FeeWindow
  pub classic_fee_window : FeeWindow

-- NewFeeWindows
pub new_fee_windows : ℕ → ℕ → FeeWindows
unfolding new_fee_window
new_fee_windows classic_retention soroban_retention = record {
  soroban_inclusion_fee_window = new_fee_window soroban_retention;
  classic_fee_window = new_fee_window classic_retention;
}

-- What a ledger close meta holds: its sequence and close time, and its reader, if one can be made.
pub record FeeMeta : Type 0 where
  pub ledger_sequence : ℕ
  pub ledger_close_time : ℤ
  pub reader : Option (List Read)

abbrev pub bucket_with : FeeMeta → List ℕ → LedgerBucket (List ℕ)
bucket_with meta fees = record {
  ledger_seq = meta.ledger_sequence;
  ledger_close_timestamp = meta.ledger_close_time;
  bucket_content = fees;
}

-- The two appends, classic first. An error of the second leaves the first done.
abbrev pub append_soroban :
    FeeWindows → Outcome AppendError FeeWindow → FeeWindows × Outcome IngestError (Unit {0})
append_soroban fw (ok w) = (record fw { soroban_inclusion_fee_window = w }, ok tt)
append_soroban fw (err e) = (fw, err (append_error e))
append_soroban fw panic = (fw, panic)

abbrev pub append_classic :
    FeeWindows
    → FeeMeta
    → List ℕ
    → Outcome AppendError FeeWindow
    → FeeWindows × Outcome IngestError (Unit {0})
append_classic fw meta soroban_fees (ok w) =
    append_soroban (record fw { classic_fee_window = w })
      (append_ledger_fees fw.soroban_inclusion_fee_window (bucket_with meta soroban_fees))
append_classic fw meta soroban_fees (err e) = (fw, err (append_error e))
append_classic fw meta soroban_fees panic = (fw, panic)

-- IngestFees behind the loop.
abbrev pub append_read :
    FeeWindows
    → FeeMeta
    → Outcome IngestError (List ℕ × List ℕ)
    → FeeWindows × Outcome IngestError (Unit {0})
append_read fw meta (ok (soroban_fees, classic_fees)) =
    append_classic fw meta soroban_fees
      (append_ledger_fees fw.classic_fee_window (bucket_with meta classic_fees))
append_read fw meta (err e) = (fw, err e)
append_read fw meta panic = (fw, panic)

-- IngestFees
unfoldable pub ingest_fees : FeeWindows → FeeMeta → FeeWindows × Outcome IngestError (Unit {0})
unfolding read_fees
ingest_fees fw meta = elim meta.reader [
  | none ↦ (fw, err reader_error)
  | some reads ↦ append_read fw meta (read_fees reads ([], []))
]
