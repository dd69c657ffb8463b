-- ===== src/Db/Commit/Retained.antt =====
-- What the tables hold after a commit.
use soroban_rpc.Common.{
  ℕ, ◌≡◌, ◌+◌, ◌^◌, ◌<◌, refl, sym, ap, subst, ◌∙◌, Option, some, List, [], ◌∷◌, ok, format_uint,
  parse_uint-format_uint, arith,
}
use soroban_rpc.Db.Cache.{CacheWriteTx, assign, commit}
use soroban_rpc.Db.Cache.Lookup.{lookup, Unique}
use soroban_rpc.Db.Sql.{Sql, IsSql, listed}
use soroban_rpc.Db.Xdr.{Xdr}
use soroban_rpc.Db.Writer.{Batch, EntryWriter, flush}
use soroban_rpc.Db.Writer.Flush.{IsWritten, IsOrder, flush_writes, row}
use soroban_rpc.Db.Writer.Others.{flush-others}
use soroban_rpc.Db.Ledgers.Trim.{retained, retained_transactions}
use soroban_rpc.Db.Meta.{
  DbCache, latest_ledger_sequence_meta_key, get_meta_value, get_latest_ledger_sequence, fill_latest,
}
use soroban_rpc.Db.Commit.{committed, TxSession, commit_write_tx, prepare, updated_cache}
use soroban_rpc.Db.Commit.Prepared.{IsTxSession, settled, prepare-settled, finish-committed}

module _ {S K E X L : Type 0} (q : Sql S X L) (x : Xdr K E X) (order : Batch E → Batch E)
    (update_order : CacheWriteTx → CacheWriteTx) (session : TxSession S X) (ql : IsSql q)
    (sl : IsTxSession q session) where
  -- What a commit that succeeds went through.
  pub committed_steps :
      (seq window : ℕ) (w : EntryWriter S E) (cache cache' : DbCache) (s : S) (e : Option X)
      → seq + 1 < 2 ^ 32
      → commit_write_tx q x order update_order session seq window w cache ≡ committed s cache' e
      → (v : EntryWriter S E) × (flush q x order w ≡ ok v)
        × (q.tables s ≡ settled q x order update_order session seq window (q.tables v.table))
        × (cache' ≡ updated_cache q x order update_order session seq v cache)
  unfolding commit_write_tx
  committed_steps seq window w cache cache' s e small h =
      let (u, prepared, cached, kept) =
        finish-committed q x order update_order session sl seq cache cache'
          (prepare q x order update_order session seq window w) s e h in
      let (v, flushed, same, tables) =
        prepare-settled q x order update_order session ql seq window w u small prepared in
      (
        v,
        flushed,
        kept ∙ tables,
        cached
            ∙ ap
                (λ c. record cache {
                  latest_ledger_seq = seq;
                  ledger_entries = commit (update_order c) cache.ledger_entries;
                })
                same,
      )

  -- After a commit that succeeds, for a ledger below the last uint32, the ledger entries are as they
  -- were but for the updates of the batch; of the ledgers, and of the transactions, those of the
  -- retention window that ends with that ledger or of later ledgers are left, and no others; and the
  -- latest sequence is noted.
  pub commit_write_tx-tables :
      (fair : IsOrder order) (seq window : ℕ) (w : EntryWriter S E) (cache cache' : DbCache) (s : S)
      (e : Option X)
      → Unique w.key_to_entry_batch
      → seq + 1 < 2 ^ 32
      → commit_write_tx q x order update_order session seq window w cache ≡ committed s cache' e
      → ((k : List ℕ)
          → IsWritten x (lookup w.key_to_entry_batch k) (row q w k) ((q.tables s).entries k))
        × ((q.tables s).ledgers ≡ retained seq window (q.tables w.table).ledgers)
        × ((q.tables s).transactions
            ≡ retained_transactions seq window (q.tables w.table).transactions)
        × ((q.tables s).meta
            ≡ assign
                (q.tables w.table).meta
                latest_ledger_sequence_meta_key
                (some (format_uint seq)))
  commit_write_tx-tables fair seq window w cache cache' s e unique small h =
      let (v, flushed, tables, cached) = committed_steps seq window w cache cache' s e small h in
      let (emptied, written) = flush_writes q ql x order fair w v unique flushed in
      let same = flush-others q ql x order w v flushed in
      (
        λ k.
            subst (IsWritten x (lookup w.key_to_entry_batch k) (row q w k))
              (sym (ap (λ T. T.entries k) tables)) (written k).0,
        ap (λ T. T.ledgers) tables ∙ ap (λ o. retained seq window o.1) same,
        ap (λ T. T.transactions) tables ∙ ap (λ o. retained_transactions seq window o.2) same,
        ap (λ T. T.meta) tables
            ∙ ap (λ o. assign o.0 latest_ledger_sequence_meta_key (some (format_uint seq))) same,
      )

  -- After a commit that succeeds, for a ledger below the last uint32, the latest ledger sequence that
  -- is read back from the database, where its query succeeds, and that of the cache are the sequence
  -- that was committed.
  pub get_latest_ledger_sequence-commit :
      (seq window : ℕ) (w : EntryWriter S E) (cache cache' : DbCache) (s : S) (e : Option X)
      (rows : List (List ℕ))
      → seq + 1 < 2 ^ 32
      → commit_write_tx q x order update_order session seq window w cache ≡ committed s cache' e
      → q.select_meta s latest_ledger_sequence_meta_key ≡ ok rows
      → (get_latest_ledger_sequence q s cache' ≡ ok (seq, fill_latest q cache' seq))
        × (cache'.latest_ledger_seq ≡ seq)
  unfolding get_latest_ledger_sequence get_meta_value
  get_latest_ledger_sequence-commit seq window w cache cache' s e rows small h found =
      let (v, flushed, tables, cached) = committed_steps seq window w cache cache' s e small h in
      let value : rows ≡ format_uint seq ∷ [] =
        ql.selects_meta s latest_ledger_sequence_meta_key rows found
        ∙ ap (λ T. listed (T.meta latest_ledger_sequence_meta_key)) tables in
      (
        rw
            (
              get_latest_ledger_sequence,
              get_meta_value,
              found,
              value,
              parse_uint-format_uint 32 seq (omega arith) (omega arith),
            )
            refl,
        ap (λ c. c.latest_ledger_seq) cached,
      )
