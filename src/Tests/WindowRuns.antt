-- ===== src/Tests/WindowRuns.antt =====
-- The window on a full buffer of two ledgers that has turned.
use soroban_rpc.Common.{ℕ, ◌*◌, ◌≡◌, refl, inr, some, [], ◌∷◌, pos, arith, ok}
use soroban_rpc.Window.{LedgerBucket, LedgerBucketWindow, AppendError, new, append, get}
use soroban_rpc.Window.Spec.{contents, slide_next, view, last_n}
use soroban_rpc.Window.Validity.{IsShaped, IsValid}
use soroban_rpc.Window.Refine.{append_refines, get_refines}
use soroban_rpc.Window.Invariant.{append-IsValid}
use soroban_rpc.Window.Run.{append_all, append_all-new}

abbrev bucket : ℕ → LedgerBucket ℕ
bucket seq = record {
  ledger_seq = seq;
  ledger_close_timestamp = pos (seq * 5);
  bucket_content = seq;
}

abbrev turned : LedgerBucketWindow ℕ
turned = record { buckets = bucket 8 ∷ bucket 7 ∷ []; cap = 2; start = 1 }

abbrev turned_again : LedgerBucketWindow ℕ
turned_again = record { buckets = bucket 8 ∷ bucket 9 ∷ []; cap = 2; start = 0 }

turned-IsShaped : IsShaped turned
turned-IsShaped = record {
  has_room = omega arith;
  small = omega arith;
  len_in = omega arith;
  start_in = omega arith;
  turned = inr refl;
}

turned-IsValid : IsValid turned
turned-IsValid = record { shaped = turned-IsShaped; contiguous = (omega arith, (refl, tt)) }

append_refines_example :
    view (append turned (bucket 9)) ≡ slide_next 2 (bucket 7 ∷ bucket 8 ∷ []) (bucket 9)
append_refines_example = append_refines turned (bucket 9) turned-IsShaped

append-IsValid_example : IsValid turned_again × (turned_again.cap ≡ turned.cap)
unfolding append
append-IsValid_example =
    append-IsValid turned turned_again (bucket 9) (some (bucket 7)) turned-IsValid (omega arith)
      refl

get_refines_example : get {E = AppendError} turned 1 ≡ ok (bucket 8)
get_refines_example = get_refines AppendError turned 1 turned-IsShaped

append_all-new_example :
    (w : LedgerBucketWindow ℕ) × (append_all (new 2) (bucket 7 ∷ bucket 8 ∷ bucket 9 ∷ []) ≡ ok w)
    × IsValid w
    × (contents w ≡ last_n 2 (bucket 7 ∷ bucket 8 ∷ bucket 9 ∷ []))
append_all-new_example =
    append_all-new 2 7 (bucket 7 ∷ bucket 8 ∷ bucket 9 ∷ []) (omega arith) (omega arith)
      (omega arith) (refl, (refl, (refl, tt)))
