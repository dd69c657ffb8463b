-- ===== src/Db/Transactions/Inserted.antt =====
-- What the table of transactions holds after InsertTransactions.
use soroban_rpc.Common.{
  ℕ, ◌+◌, ◌≡◌, refl, sym, ap, ◌∙◌, inl, inr, true, false, Option, none, some, List, [], ◌∷◌, ◌==◌,
  length, if◌then◌else◌, arith, Bool-cases, Option-cases, ok, Outcome-cases,
}
use soroban_rpc.Db.Cache.{same_key, put}
use soroban_rpc.Db.Cache.Lookup.{lookup, Unique, put-lookup, put-Unique}
use soroban_rpc.Db.Sql.{Sql, IsSql}
use soroban_rpc.Db.Writer.Plan.{last_row}
use soroban_rpc.Db.Reader.Rows.{with_rows-lookup}
use soroban_rpc.Db.Transactions.{
  LedgerTransaction, IngestReader, TransactionMap, add_transaction, lookup_rows, read_one, gather,
  insert_rows, insert_read, insert_transactions,
}

-- The hashes of some transactions, in order: of a fee bump the inner one and its own.
abbrev pub hashes_of : List LedgerTransaction → TransactionMap
hashes_of [] = []
hashes_of (tx ∷ txs) =
    let rest = (tx.transaction_hash, tx) ∷ hashes_of txs in
    if tx.is_fee_bump then (tx.inner_hash, tx) ∷ rest else rest

abbrev enter_all : TransactionMap → TransactionMap → TransactionMap
enter_all m [] = m
enter_all m (e ∷ es) = enter_all (put m e.0 e.1) es

enter_all-lookup :
    (m es : TransactionMap) (k : List ℕ)
    → lookup (enter_all m es) k ≡ elim (last_row es k) [ some t ↦ some t | none ↦ lookup m k ]
enter_all-lookup m [] k = refl
enter_all-lookup m (e ∷ es) k =
    enter_all-lookup (put m e.0 e.1) es k ∙ elim (Option-cases (last_row es k)) [
      | inr later ↦ rw later.1 refl
      | inl last ↦ elim (Bool-cases (same_key e.0 k)) [
        | inl h ↦ rw (last, h) (put-lookup m e.0 k e.1 ∙ rw h refl)
        | inr h ↦ rw (last, h) (put-lookup m e.0 k e.1 ∙ rw h refl)
      ]
    ]

enter_all-Unique : (m es : TransactionMap) → Unique m → Unique (enter_all m es)
enter_all-Unique m [] u = u
enter_all-Unique m (e ∷ es) u = enter_all-Unique (put m e.0 e.1) es (put-Unique m e.0 e.1 u)

enter_hashes :
    (m : TransactionMap) (tx : LedgerTransaction) (txs : List LedgerTransaction)
    → enter_all m (hashes_of (tx ∷ txs)) ≡ enter_all (add_transaction m tx) (hashes_of txs)
enter_hashes m tx txs = elim (Bool-cases tx.is_fee_bump) [
  | inl bump ↦ rw bump refl
  | inr plain ↦ rw plain refl
]

lookup_rows-lookup :
    (seq : ℕ) (m : TransactionMap) (k : List ℕ)
    → lookup (lookup_rows seq m) k
      ≡ elim (lookup m k) [ some t ↦ some (seq, t.index) | none ↦ none ]
lookup_rows-lookup seq [] k = refl
lookup_rows-lookup seq (e ∷ es) k = elim (Bool-cases (same_key e.0 k)) [
  | inl h ↦ rw h refl
  | inr h ↦ rw h (lookup_rows-lookup seq es k)
]

lookup_rows-Unique : (seq : ℕ) (m : TransactionMap) → Unique m → Unique (lookup_rows seq m)
lookup_rows-Unique seq [] u = tt
lookup_rows-Unique seq (e ∷ es) u =
    (lookup_rows-lookup seq es e.0 ∙ rw u.0 refl, lookup_rows-Unique seq es u.1)

module _ {S X L : Type 0} (q : Sql S X L) (r : IngestReader X L)
    (order : TransactionMap → TransactionMap) where
  -- The reader hands out these transactions from a place on.
  abbrev pub Reads : L → ℕ → List LedgerTransaction → Type 0
  Reads l i [] = Unit
  Reads l i (tx ∷ txs) = (r.read l i ≡ ok tx) × Reads l (i + 1) txs

  gather-eq :
      (l : L) (i : ℕ) (txs : List LedgerTransaction) (m : TransactionMap)
      → Reads l i txs
      → gather q r order l (length txs) i m ≡ ok (enter_all m (hashes_of txs))
  gather-eq l i [] m reads = refl
  gather-eq l i (tx ∷ txs) m (first, reads) =
      rw (gather, read_one, first)
        (gather-eq l (i + 1) txs (add_transaction m tx) reads ∙ ap ok (sym (enter_hashes m tx txs)))

  -- An order in which Go meets the hashes of the map.
  abbrev pub IsOrder : Type 0
  IsOrder =
      (m : TransactionMap)
      → Unique m
      → Unique (order m) × ((k : List ℕ) → lookup (order m) k ≡ lookup m k)

  abbrev row_of : ℕ → Option LedgerTransaction → Option (ℕ × ℕ)
  row_of seq o = elim o [ some t ↦ some (seq, t.index) | none ↦ none ]

  abbrev over : Option (ℕ × ℕ) → Option (ℕ × ℕ) → Option (ℕ × ℕ)
  over old o = elim o [ some v ↦ some v | none ↦ old ]

  found_row :
      (seq : ℕ) (o : Option LedgerTransaction) (old : Option (ℕ × ℕ))
      → over old (row_of seq o) ≡ elim o [ some t ↦ some (seq, t.index) | none ↦ old ]
  found_row seq none old = refl
  found_row seq (some t) old = refl

  same_option : (o : Option LedgerTransaction) → elim o [ some t ↦ some t | none ↦ none ] ≡ o
  same_option none = refl
  same_option (some t) = refl

  insert_rows-found :
      (ql : IsSql q) (fair : IsOrder) (l : L) (s t : S) (es : TransactionMap) (k : List ℕ)
      → insert_rows q r order l s (enter_all [] es) ≡ ok t
      → (q.tables t).transactions k ≡ elim (last_row es k) [
        | some tx ↦ some (r.sequence_of l, tx.index)
        | none ↦ (q.tables s).transactions k
      ]
  insert_rows-found ql fair l s t es k h =
      let m = enter_all [] es in
      let rows = lookup_rows (r.sequence_of l) (order m) in
      let old = (q.tables s).transactions in
      let (unique, same) = fair m (enter_all-Unique [] es tt) in
      elim (Outcome-cases (q.insert_transactions s rows)) [
        | inr (inl failure) ↦ cc (rw (insert_rows, failure.1) at h)
        | inr (inr broken) ↦ cc (rw (insert_rows, broken) at h)
        | inl (u, done) ↦
            let reached : u ≡ t = cc (rw (insert_rows, done) at h) in
            ap (λ v. (q.tables v).transactions k) (sym reached)
            ∙ ap (λ T. T.transactions k) (ql.inserts_transactions s u rows done)
            ∙ with_rows-lookup rows old k (lookup_rows-Unique (r.sequence_of l) (order m) unique)
            ∙ ap (over (old k)) (
                lookup_rows-lookup (r.sequence_of l) (order m) k
                ∙ ap (row_of (r.sequence_of l))
                    (same k ∙ enter_all-lookup [] es k ∙ same_option (last_row es k)))
            ∙ found_row (r.sequence_of l) (last_row es k) (old k)
      ]

  -- After InsertTransactions of a ledger, where it succeeds and the ledger's transactions can be read, a
  -- hash leads to the ledger and to the index of the last transaction that has it, as its own hash or
  -- as the inner hash of a fee bump, and a hash that none has leads where it led before.
  pub insert_transactions-found :
      (ql : IsSql q) (fair : IsOrder) (l : L) (s t : S) (txs : List LedgerTransaction)
      → r.count_transactions l ≡ length txs
      → r.open_reader l ≡ none
      → Reads l 0 txs
      → insert_transactions q r order true l s ≡ ok t
      → (k : List ℕ)
      → (q.tables t).transactions k ≡ elim (last_row (hashes_of txs) k) [
        | some tx ↦ some (r.sequence_of l, tx.index)
        | none ↦ (q.tables s).transactions k
      ]
  unfolding insert_transactions
  insert_transactions-found ql fair l s t [] counted opened reads h k =
      let reached : s ≡ t = cc (rw (insert_transactions, counted) at h) in
      ap (λ v. (q.tables v).transactions k) (sym reached)
  insert_transactions-found ql fair l s t (tx ∷ txs) counted opened reads h k =
      let gathered =
        ap (λ n. gather q r order l n 0 []) counted ∙ gather-eq l 0 (tx ∷ txs) [] reads in
      let busy : (r.count_transactions l == 0) ≡ false = ground (arith, counted) in
      insert_rows-found ql fair l s t (hashes_of (tx ∷ txs)) k
        (rw (insert_transactions, busy, insert_read, opened, gathered) at h)
