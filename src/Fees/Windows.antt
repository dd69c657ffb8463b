-- ===== src/Fees/Windows.antt =====
-- A fee window always reports the distribution of the fees of the ledgers that it holds.
use mathlib.Core.List.{append_assoc, append-nil}
use soroban_rpc.Common.{
  ℕ, zero, suc, ◌+◌, ◌^◌, ◌<◌, ◌≡◌, refl, sym, ◌∙◌, ◌⊎◌, inl, inr, List, [], ◌∷◌, ◌++◌, length,
  get_elem?-eq_some, drop, drop-cons, drop_all, arith, ok,
}
use soroban_rpc.Window.{LedgerBucket, LedgerBucketWindow, AppendError, get, len}
use soroban_rpc.Window.Spec.{contents, expected, slide}
use soroban_rpc.Window.Validity.{IsShaped, IsValid}
use soroban_rpc.Window.Refine.{get_refines}
use soroban_rpc.Window.Place.{length-contents, len-cap}
use soroban_rpc.Window.Invariant.{append-IsValid}
use soroban_rpc.Window.Run.{append-ok}
use soroban_rpc.Fees.{
  FeeWindow, FeeDistribution, zero_distribution, gather_fees, compute_fee_distribution,
  append_ledger_fees,
}
use soroban_rpc.Fees.Spec.{Describes}
use soroban_rpc.Fees.Distribution.{compute_fee_distribution-Describes, compute_fee_distribution-nil}

abbrev pub fees_of : List (LedgerBucket (List ℕ)) → List ℕ
fees_of [] = []
fees_of (b ∷ bs) = b.bucket_content ++ fees_of bs

-- The distribution of the fees of some ledgers, or the zero distribution where there are none.
abbrev pub Reports : List (LedgerBucket (List ℕ)) → FeeDistribution → Type 0
Reports bs d =
    ((fees_of bs ≡ []) × (d ≡ zero_distribution))
    ⊎ ((0 < length (fees_of bs)) × Describes (fees_of bs) (length bs) d)

gather_fees-eq :
    (w : LedgerBucketWindow (List ℕ)) (rounds i : ℕ) (acc : List ℕ)
    → IsShaped w
    → i + rounds ≡ length (contents w)
    → gather_fees w rounds i acc ≡ ok (acc ++ fees_of (drop i (contents w)))
unfolding gather_fees
gather_fees-eq w zero i acc v e = rw (drop_all i (contents w) (omega arith), append-nil)
gather_fees-eq w (suc rounds) i acc v e =
    let (b, at) = get_elem?-eq_some (contents w) i (omega arith) in
    let g : get {E = AppendError} w i ≡ ok b = get_refines AppendError w i v ∙ rw at in
    let n : i + 1 ≡ suc i = omega arith in
    rw (g, n)
      (gather_fees-eq w rounds (suc i) (acc ++ b.bucket_content) v (omega arith)
        ∙ rw (drop-cons i (contents w) b at, append_assoc))

report_cases :
    (fees : List ℕ) (count : ℕ) (bs : List (LedgerBucket (List ℕ)))
    → fees ≡ fees_of bs
    → count ≡ length bs
    → length fees < 2 ^ 57
    → (d : FeeDistribution) × (compute_fee_distribution fees count ≡ ok d) × Reports bs d
report_cases [] count bs e n small =
    (zero_distribution, compute_fee_distribution-nil count, inl (sym e, refl))
report_cases (x ∷ xs) count bs e n small =
    let (d, k, i) = compute_fee_distribution-Describes (x ∷ xs) count (omega arith) small in
    (d, k, inr (rw (← e) (omega arith), rw (← e, ← n) i))

-- Adding the fees of the ledger that the window expects slides the window, and the distribution
-- is then that of the fees of the ledgers in it.
pub append_ledger_fees-Reports :
    (fw : FeeWindow) (b : LedgerBucket (List ℕ))
    → IsValid fw.fees_per_ledger
    → b.ledger_seq < 2 ^ 32
    → expected (contents fw.fees_per_ledger) b.ledger_seq ≡ b.ledger_seq
    → length (fees_of (slide fw.fees_per_ledger.cap (contents fw.fees_per_ledger) b).1) < 2 ^ 57
    → (fw' : FeeWindow) × (append_ledger_fees fw b ≡ ok fw')
      × IsValid fw'.fees_per_ledger
      × (contents fw'.fees_per_ledger
          ≡ (slide fw.fees_per_ledger.cap (contents fw.fees_per_ledger) b).1)
      × Reports (contents fw'.fees_per_ledger) fw'.distribution
unfolding append_ledger_fees
append_ledger_fees-Reports fw b v lt e small =
    let (w', a, c) = append-ok fw.fees_per_ledger b v.shaped e in
    let (v', k) = append-IsValid fw.fees_per_ledger w' b _ v lt a in
    let l : len w' ≡ length (contents w') = (len-cap w' v'.shaped).0 ∙ sym (length-contents w') in
    let g = gather_fees-eq w' (len w') 0 [] v'.shaped (omega (arith, l)) in
    let (d, q, r) =
      report_cases (fees_of (contents w')) (len w') (contents w') refl l (rw c small) in
    (record { fees_per_ledger = w'; distribution = d }, rw (a, g, q), v', c, r)
