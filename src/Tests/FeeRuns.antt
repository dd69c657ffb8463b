-- ===== src/Tests/FeeRuns.antt =====
-- The fees of one ledger: a Soroban transaction and a classic one with two operations.
use soroban_rpc.Common.{
  ℕ, ◌≡◌, refl, inl, none, some, List, [], ◌∷◌, ◌++◌, pos, map, arith, ok, err,
}
use soroban_rpc.Window.{LedgerBucket}
use soroban_rpc.Window.Spec.{contents}
use soroban_rpc.Window.Validity.{IsValid}
use soroban_rpc.Fees.{
  FeeWindow, FeeDistribution, zero_distribution, mode_of, percentile, compute_fee_distribution,
  append_ledger_fees,
}
use soroban_rpc.Fees.Spec.{count, IsMode, IsPercentile, Describes}
use soroban_rpc.Fees.Mode.{mode_of-IsMode}
use soroban_rpc.Fees.Percentile.{percentile_lem}
use soroban_rpc.Fees.Distribution.{compute_fee_distribution-Describes}
use soroban_rpc.Fees.Windows.{Reports, append_ledger_fees-Reports}
use soroban_rpc.Fees.Ingest.{
  FeeTransaction, FeeMeta, FeeWindows, transaction, read_error, reader_error, invoke_host_function,
  other_operation, bucket_with, ingest_fees,
}
use soroban_rpc.Fees.Lockstep.{
  Fits, Took, fees_by, inclusion_fee_of, operation_fee_of, ingest_fees-Took,
  ingest_fees-reader_error,
}

abbrev empty_window : FeeWindow
empty_window = record {
  fees_per_ledger = record { buckets = []; cap = 2; start = 0 };
  distribution = zero_distribution;
}

empty_window-IsValid : IsValid empty_window.fees_per_ledger
empty_window-IsValid = record {
  shaped = record {
    has_room = omega arith;
    small = omega arith;
    len_in = omega arith;
    start_in = omega arith;
    turned = inl refl;
  };
  contiguous = tt;
}

abbrev fees : LedgerBucket (List ℕ)
fees = record {
  ledger_seq = 5;
  ledger_close_timestamp = pos 25;
  bucket_content = 300 ∷ 100 ∷ 300 ∷ [];
}

mode_of-IsMode_example :
    IsMode (λ v. count v (100 ∷ 200 ∷ 200 ∷ [])) (mode_of 100 (200 ∷ 200 ∷ []) 200)
mode_of-IsMode_example = mode_of-IsMode 100 (200 ∷ 200 ∷ []) (omega arith, (omega arith, tt))

percentile_lem_example :
    (q : ℕ) × (percentile (100 ∷ 200 ∷ 200 ∷ []) 50 ≡ ok q)
    × IsPercentile (100 ∷ 200 ∷ 200 ∷ []) 50 q
percentile_lem_example =
    percentile_lem (100 ∷ 200 ∷ 200 ∷ []) 50 (omega arith, (omega arith, (omega arith, tt)))
      (omega arith) (omega arith) (omega arith) (omega arith)

compute_fee_distribution-Describes_example :
    (d : FeeDistribution) × (compute_fee_distribution (300 ∷ 100 ∷ 300 ∷ []) 1 ≡ ok d)
    × Describes (300 ∷ 100 ∷ 300 ∷ []) 1 d
compute_fee_distribution-Describes_example =
    compute_fee_distribution-Describes (300 ∷ 100 ∷ 300 ∷ []) 1 (omega arith) (omega arith)

append_ledger_fees-Reports_example :
    (fw : FeeWindow) × (append_ledger_fees empty_window fees ≡ ok fw)
    × IsValid fw.fees_per_ledger
    × (contents fw.fees_per_ledger ≡ fees ∷ [])
    × Reports (contents fw.fees_per_ledger) fw.distribution
append_ledger_fees-Reports_example =
    append_ledger_fees-Reports empty_window fees empty_window-IsValid (omega arith) refl
      (omega arith)

abbrev transactions : List FeeTransaction
transactions =
    (record {
      fee_charged = 1000;
      operations = invoke_host_function ∷ [];
      meta_v = 3;
      soroban_meta = some (record {
        ext_v = 1;
        total_non_refundable_resource_fee_charged = 500;
        total_refundable_resource_fee_charged = 300;
      });
    })
    ∷ (record {
      fee_charged = 200;
      operations = other_operation ∷ other_operation ∷ [];
      meta_v = 3;
      soroban_meta = none;
    })
    ∷ []

abbrev readable : FeeMeta
readable = record {
  ledger_sequence = 5;
  ledger_close_time = pos 25;
  reader = some (map transaction transactions);
}

abbrev unreadable : FeeMeta
unreadable = record {
  ledger_sequence = 5;
  ledger_close_time = pos 25;
  reader = some (map transaction transactions ++ (read_error ∷ []));
}

abbrev empty_windows : FeeWindows
empty_windows = record {
  soroban_inclusion_fee_window = empty_window;
  classic_fee_window = empty_window;
}

charges :
    (fees_by inclusion_fee_of transactions ≡ 200 ∷ [])
    × (fees_by operation_fee_of transactions ≡ 100 ∷ [])
charges = (refl, refl)

Fits-soroban : Fits empty_window (bucket_with readable (fees_by inclusion_fee_of transactions))
Fits-soroban = record {
  valid = empty_window-IsValid;
  sequence_small = omega arith;
  next = refl;
  fees_small = omega arith;
}

Fits-classic : Fits empty_window (bucket_with readable (fees_by operation_fee_of transactions))
Fits-classic = record {
  valid = empty_window-IsValid;
  sequence_small = omega arith;
  next = refl;
  fees_small = omega arith;
}

ingest_fees-Took_example :
    (fw : FeeWindows) × (ingest_fees empty_windows readable ≡ (fw, ok tt))
    × Took empty_window fw.soroban_inclusion_fee_window (bucket_with readable (200 ∷ []))
    × Took empty_window fw.classic_fee_window (bucket_with readable (100 ∷ []))
ingest_fees-Took_example =
    ingest_fees-Took empty_windows readable transactions refl Fits-soroban Fits-classic

ingest_fees-reader_error_example :
    ingest_fees empty_windows unreadable ≡ (empty_windows, err reader_error)
ingest_fees-reader_error_example =
    ingest_fees-reader_error empty_windows unreadable transactions [] refl
