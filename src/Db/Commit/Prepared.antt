-- ===== src/Db/Commit/Prepared.antt =====
-- The statements of Commit, one after the other.
use soroban_rpc.Common.{
  ℕ, ◌≡◌, ◌+◌, ◌^◌, ◌<◌, refl, sym, ap, ◌∙◌, Option, some, Outcome, ok, err, panic, ok-injective,
  ◌>>=◌, >>=-eq-ok, format_uint,
}
use soroban_rpc.Db.Cache.{CacheWriteTx, assign}
use soroban_rpc.Db.Sql.{Sql, IsSql, Tables}
use soroban_rpc.Db.Xdr.{Xdr}
use soroban_rpc.Db.Writer.{Batch, EntryWriter, flush}
use soroban_rpc.Db.Ledgers.{trim_ledgers, trim_transactions}
use soroban_rpc.Db.Ledgers.Trim.{
  retained, retained_transactions, trim_ledgers-retained, trim_transactions-retained,
}
use soroban_rpc.Db.Meta.{DbCache, latest_ledger_sequence_meta_key}
use soroban_rpc.Db.Commit.{committed, TxSession, prepare, updated_cache, with_commit, finish}

-- A commit of the session makes what the transaction saw the state of the database.
pub record IsTxSession {S X L : Type 0} (q : Sql S X L) (session : TxSession S X) : Type 0 where
  pub commits : (s t : S) → session.commit_tx s ≡ ok t → q.tables t ≡ q.tables s

module _ {S K E X L : Type 0} (q : Sql S X L) (x : Xdr K E X) (order : Batch E → Batch E)
    (update_order : CacheWriteTx → CacheWriteTx) (session : TxSession S X) where
  -- The tables behind a flush: the latest sequence is noted, and the window applied.
  abbrev pub settled : ℕ → ℕ → Tables L → Tables L
  settled seq window t = record {
    entries = t.entries;
    meta = assign t.meta latest_ledger_sequence_meta_key (some (format_uint seq));
    ledgers = retained seq window t.ledgers;
    transactions = retained_transactions seq window t.transactions;
  }

  pub prepare-settled :
      (ql : IsSql q) (seq window : ℕ) (w u : EntryWriter S E)
      → seq + 1 < 2 ^ 32
      → prepare q x order update_order session seq window w ≡ ok u
      → (v : EntryWriter S E) × (flush q x order w ≡ ok v)
        × (u.cache_tx ≡ v.cache_tx)
        × (q.tables u.table ≡ settled seq window (q.tables v.table))
  unfolding prepare
  prepare-settled ql seq window w u small h =
      let (v, flushed, h₁) =
        >>=-eq-ok (flush q x order w)
          (λ v. trim_ledgers q seq window v.table >>= (λ s.
            trim_transactions q seq window s >>= (λ t.
              q.replace_meta t latest_ledger_sequence_meta_key (format_uint seq)
              >>= (λ r. ok (record v { table = r })))))
          h in
      let (s, ledgers, h₂) =
        >>=-eq-ok (trim_ledgers q seq window v.table)
          (λ s. trim_transactions q seq window s >>= (λ t.
            q.replace_meta t latest_ledger_sequence_meta_key (format_uint seq)
            >>= (λ r. ok (record v { table = r }))))
          h₁ in
      let (t, transactions, h₃) =
        >>=-eq-ok (trim_transactions q seq window s)
          (λ t.
            q.replace_meta t latest_ledger_sequence_meta_key (format_uint seq)
            >>= (λ r. ok (record v { table = r })))
          h₂ in
      let (r, noted, h₄) =
        >>=-eq-ok (q.replace_meta t latest_ledger_sequence_meta_key (format_uint seq))
          (λ r. ok (record v { table = r })) h₃ in
      (
        v,
        flushed,
        ap (λ y. y.cache_tx) (sym (ok-injective h₄)),
        ap (λ y. q.tables y.table) (sym (ok-injective h₄))
            ∙ ql.replaces_meta t r latest_ledger_sequence_meta_key (format_uint seq) noted
            ∙ ap
                (λ (T : Tables L). record T {
                  meta = assign T.meta latest_ledger_sequence_meta_key (some (format_uint seq));
                })
                (trim_transactions-retained q ql seq window s t small transactions
                  ∙ ap
                      (λ (T : Tables L). record T {
                        transactions = retained_transactions seq window T.transactions;
                      })
                      (trim_ledgers-retained q ql seq window v.table s small ledgers)),
      )

  with_commit-committed :
      (sl : IsTxSession q session) (seq : ℕ) (cache cache' : DbCache) (u : EntryWriter S E) (s : S)
      (e : Option X) (r : Outcome X S)
      → session.commit_tx u.table ≡ r
      → with_commit q x order update_order session seq cache u r ≡ committed s cache' e
      → (cache' ≡ updated_cache q x order update_order session seq u cache)
        × (q.tables s ≡ q.tables u.table)
  with_commit-committed sl seq cache cache' u s e (ok t) c h =
      (cc, (let same : t ≡ s = cc h in ap q.tables (sym same) ∙ sl.commits u.table t c))
  with_commit-committed sl seq cache cache' u s e (err _) c h = cc
  with_commit-committed sl seq cache cache' u s e panic c h = cc

  pub finish-committed :
      (sl : IsTxSession q session) (seq : ℕ) (cache cache' : DbCache)
      (o : Outcome X (EntryWriter S E)) (s : S) (e : Option X)
      → finish q x order update_order session seq cache o ≡ committed s cache' e
      → (u : EntryWriter S E) × (o ≡ ok u)
        × (cache' ≡ updated_cache q x order update_order session seq u cache)
        × (q.tables s ≡ q.tables u.table)
  finish-committed sl seq cache cache' panic s e h = cc
  finish-committed sl seq cache cache' (err _) s e h = cc
  finish-committed sl seq cache cache' (ok u) s e h =
      let (c, t) =
        with_commit-committed sl seq cache cache' u s e (session.commit_tx u.table) refl h in
      (u, refl, c, t)
