-- ===== src/Fees/Lockstep.antt =====
-- Both fee windows take in a ledger together, each with the fees of its kind in order.
use mathlib.Core.List.{append_assoc, append-nil}
use soroban_rpc.Common.{
  ℕ, ◌+◌, ◌-◌, ◌/◌, ◌%◌, ◌^◌, ◌<◌, ◌≡◌, refl, ap, ap₂, ◌∙◌, Bool, true, false, Option, ◌==◌, ◌&&◌,
  ◌||◌, if◌then◌else◌, arith, Bool-cases, inl, inr, none, some, List, [], ◌∷◌, ◌++◌, map, length,
  ok, err,
}
use soroban_rpc.Window.{LedgerBucket}
use soroban_rpc.Window.Spec.{contents, expected, slide}
use soroban_rpc.Window.Validity.{IsValid}
use soroban_rpc.Fees.{FeeWindow, append_ledger_fees}
use soroban_rpc.Fees.Windows.{fees_of, Reports, append_ledger_fees-Reports}
use soroban_rpc.Fees.Ingest.{
  FeeTransaction, OperationType, invoke_host_function, extend_footprint_ttl, restore_footprint,
  other_operation, SorobanMeta, inclusion_fee, Charge, soroban, classic, skipped, charge, Read,
  transaction, read_error, reader_error, add_charge, read_fees, FeeWindows, FeeMeta, bucket_with,
  ingest_fees, append_read,
}

-- Of the operations of a transaction: whether it is a Soroban transaction, which has one of the three
-- operations, and no other.
abbrev pub is_soroban_operation : OperationType → Bool
is_soroban_operation invoke_host_function = true
is_soroban_operation extend_footprint_ttl = true
is_soroban_operation restore_footprint = true
is_soroban_operation other_operation = false

abbrev pub is_soroban_transaction : List OperationType → Bool
is_soroban_transaction [] = false
is_soroban_transaction (op ∷ []) = is_soroban_operation op
is_soroban_transaction (op ∷ next ∷ ops) = false

-- The inclusion fee of a Soroban transaction whose meta reports the resource fees: what is left of the
-- fee charged, a `uint64`, without them.
abbrev pub inclusion_fee_of : FeeTransaction → List ℕ
inclusion_fee_of tx = elim tx.soroban_meta [
  | none ↦ []
  | some m ↦
      let resources =
        m.total_non_refundable_resource_fee_charged + m.total_refundable_resource_fee_charged in
      if is_soroban_transaction tx.operations && ((tx.meta_v == 3) && (m.ext_v == 1))
      then (tx.fee_charged + (2 ^ 64 - resources % 2 ^ 64)) % 2 ^ 64 ∷ []
      else []
]

-- The fee per operation of a transaction of another kind that has operations.
abbrev pub operation_fee_of : FeeTransaction → List ℕ
operation_fee_of tx =
    if is_soroban_transaction tx.operations || (length tx.operations == 0)
    then []
    else tx.fee_charged / length tx.operations ∷ []

-- The fees of one kind, in the order of the transactions.
abbrev pub fees_by : (FeeTransaction → List ℕ) → List FeeTransaction → List ℕ
fees_by fee [] = []
fees_by fee (tx ∷ txs) = fee tx ++ fees_by fee txs

abbrev soroban_part : Charge → List ℕ
soroban_part (soroban fee) = fee ∷ []
soroban_part _ = []

abbrev classic_part : Charge → List ℕ
classic_part (classic fee) = fee ∷ []
classic_part _ = []

abbrev transaction_of : ℕ → List OperationType → ℕ → Option SorobanMeta → FeeTransaction
transaction_of fee ops v m = record {
  fee_charged = fee;
  operations = ops;
  meta_v = v;
  soroban_meta = m;
}

inclusion-parts :
    (fee v : ℕ) (m : Option SorobanMeta)
    → (soroban_part (inclusion_fee fee v m)
        ≡ inclusion_fee_of (transaction_of fee (invoke_host_function ∷ []) v m))
      × (classic_part (inclusion_fee fee v m) ≡ [])
inclusion-parts fee v none = (refl, refl)
inclusion-parts fee v (some m) = elim (Bool-cases (v == 3)) [
  | inr old ↦ rw old (refl, refl)
  | inl three ↦ elim (Bool-cases (m.ext_v == 1)) [
    | inr old ↦ rw (three, old) (refl, refl)
    | inl one ↦ rw (three, one) (ap (λ n. n ∷ []) (omega arith), refl)
  ]
]

charge-parts :
    (fee : ℕ) (ops : List OperationType) (v : ℕ) (m : Option SorobanMeta)
    → (soroban_part (charge (transaction_of fee ops v m))
        ≡ inclusion_fee_of (transaction_of fee ops v m))
      × (classic_part (charge (transaction_of fee ops v m))
          ≡ operation_fee_of (transaction_of fee ops v m))
unfolding charge
charge-parts fee [] v none = (refl, refl)
charge-parts fee [] v (some m) = (refl, refl)
charge-parts fee (invoke_host_function ∷ []) v m = inclusion-parts fee v m
charge-parts fee (extend_footprint_ttl ∷ []) v m = inclusion-parts fee v m
charge-parts fee (restore_footprint ∷ []) v m = inclusion-parts fee v m
charge-parts fee (other_operation ∷ []) v none = (refl, refl)
charge-parts fee (other_operation ∷ []) v (some m) = (refl, refl)
charge-parts fee (op ∷ next ∷ ops) v none = (refl, ground arith)
charge-parts fee (op ∷ next ∷ ops) v (some m) = (refl, ground arith)

add_charge-eq :
    (c : Charge) (s t : List ℕ) → add_charge c (s, t) ≡ (s ++ soroban_part c, t ++ classic_part c)
add_charge-eq (soroban fee) s t = rw append-nil
add_charge-eq (classic fee) s t = rw append-nil
add_charge-eq skipped s t = rw (append-nil, append-nil)

read_fees-eq :
    (txs : List FeeTransaction) (s t : List ℕ)
    → read_fees (map transaction txs) (s, t)
      ≡ ok (s ++ fees_by inclusion_fee_of txs, t ++ fees_by operation_fee_of txs)
unfolding read_fees
read_fees-eq [] s t = rw (append-nil, append-nil)
read_fees-eq (tx ∷ txs) s t =
    let parts = charge-parts tx.fee_charged tx.operations tx.meta_v tx.soroban_meta in
    ap (λ fees. read_fees (map transaction txs) fees) (add_charge-eq (charge tx) s t)
    ∙ ap₂ (λ u v. read_fees (map transaction txs) (s ++ u, t ++ v)) parts.0 parts.1
    ∙ read_fees-eq txs (s ++ inclusion_fee_of tx) (t ++ operation_fee_of tx)
    ∙ rw (append_assoc, append_assoc)

-- Reads that fail behind some transactions.
read_fees-error :
    (txs : List FeeTransaction) (rest : List Read) (fees : List ℕ × List ℕ)
    → read_fees (map transaction txs ++ (read_error ∷ rest)) fees ≡ err reader_error
unfolding read_fees
read_fees-error [] rest fees = refl
read_fees-error (tx ∷ txs) rest fees = read_fees-error txs rest (add_charge (charge tx) fees)

-- A window can take in a ledger: it is the one that the window expects, and there are not too many fees.
pub record Fits (fw : FeeWindow) (b : LedgerBucket (List ℕ)) : Type 0 where
  pub valid : IsValid fw.fees_per_ledger
  pub sequence_small : b.ledger_seq < 2 ^ 32
  pub next : expected (contents fw.fees_per_ledger) b.ledger_seq ≡ b.ledger_seq
  pub fees_small :
      length (fees_of (slide fw.fees_per_ledger.cap (contents fw.fees_per_ledger) b).1) < 2 ^ 57

-- A window has taken in a ledger, and reports the fees of the ledgers it then holds.
pub record Took (fw fw' : FeeWindow) (b : LedgerBucket (List ℕ)) : Type 0 where
  pub valid : IsValid fw'.fees_per_ledger
  pub slid :
      contents fw'.fees_per_ledger
      ≡ (slide fw.fees_per_ledger.cap (contents fw.fees_per_ledger) b).1
  pub reports : Reports (contents fw'.fees_per_ledger) fw'.distribution

take_in :
    (fw : FeeWindow) (b : LedgerBucket (List ℕ))
    → Fits fw b
    → (fw' : FeeWindow) × (append_ledger_fees fw b ≡ ok fw') × Took fw fw' b
take_in fw b f =
    let (fw', e, v, c, r) =
      append_ledger_fees-Reports fw b f.valid f.sequence_small f.next f.fees_small in
    (fw', e, record { valid = v; slid = c; reports = r })

ingest_fees-eq :
    (fw : FeeWindows) (meta : FeeMeta) (reads : List Read)
    → meta.reader ≡ some reads
    → ingest_fees fw meta ≡ append_read fw meta (read_fees reads ([], []))
unfolding ingest_fees
ingest_fees-eq fw meta reads e =
    ap
      (λ o. elim o [
        | none ↦ (fw, err reader_error)
        | some reads ↦ append_read fw meta (read_fees reads ([], []))
      ])
      e

append_read-eq :
    (fw : FeeWindows) (meta : FeeMeta) (s c : List ℕ) (sw cw : FeeWindow)
    → append_ledger_fees fw.classic_fee_window (bucket_with meta c) ≡ ok cw
    → append_ledger_fees fw.soroban_inclusion_fee_window (bucket_with meta s) ≡ ok sw
    → append_read fw meta (ok (s, c))
      ≡ (record { soroban_inclusion_fee_window = sw; classic_fee_window = cw }, ok tt)
append_read-eq fw meta s c sw cw ce se = rw (ce, se) refl

-- A ledger that both windows can take in is taken in by both: the Soroban window slides over the
-- inclusion fees of its Soroban transactions whose meta reports the resource fees, which are the fee
-- charged less these, the classic one over the fees per operation of its other transactions that have
-- operations, each in the order of the transactions, and each reports the fees of the ledgers it holds.
pub ingest_fees-Took :
    (fw : FeeWindows) (meta : FeeMeta) (txs : List FeeTransaction)
    → meta.reader ≡ some (map transaction txs)
    → Fits fw.soroban_inclusion_fee_window (bucket_with meta (fees_by inclusion_fee_of txs))
    → Fits fw.classic_fee_window (bucket_with meta (fees_by operation_fee_of txs))
    → (fw' : FeeWindows) × (ingest_fees fw meta ≡ (fw', ok tt))
      × Took fw.soroban_inclusion_fee_window fw'.soroban_inclusion_fee_window
          (bucket_with meta (fees_by inclusion_fee_of txs))
      × Took fw.classic_fee_window fw'.classic_fee_window
          (bucket_with meta (fees_by operation_fee_of txs))
ingest_fees-Took fw meta txs e s c =
    let (sw, se, st) = take_in fw.soroban_inclusion_fee_window _ s in
    let (cw, ce, ct) = take_in fw.classic_fee_window _ c in
    (
      record { soroban_inclusion_fee_window = sw; classic_fee_window = cw },
      ingest_fees-eq fw meta _ e
          ∙ ap (append_read fw meta) (read_fees-eq txs [] [])
          ∙ append_read-eq fw meta _ _ sw cw ce se,
      st,
      ct,
    )

-- A ledger whose transactions cannot all be read changes neither window.
pub ingest_fees-reader_error :
    (fw : FeeWindows) (meta : FeeMeta) (txs : List FeeTransaction) (rest : List Read)
    → meta.reader ≡ some (map transaction txs ++ (read_error ∷ rest))
    → ingest_fees fw meta ≡ (fw, err reader_error)
ingest_fees-reader_error fw meta txs rest e =
    ingest_fees-eq fw meta _ e ∙ ap (append_read fw meta) (read_fees-error txs rest ([], []))
