-- ===== src/Db/Writer/Others.antt =====
-- What flush does not touch: the other tables.
use soroban_rpc.Common.{
  ℕ, ◌≡◌, sym, ap, ◌∙◌, Option, List, [], ◌∷◌, ok, ok-injective, ◌>>=◌, >>=-eq-ok,
}
use soroban_rpc.Db.Cache.{GoMap}
use soroban_rpc.Db.Sql.{Sql, IsSql}
use soroban_rpc.Db.Xdr.{Xdr}
use soroban_rpc.Db.Writer.{
  Batch, EntryWriter, plan, exec_upserts, exec_deletes, cache_upsert_all, cache_delete_all, flush,
}

abbrev pub others :
    {S X L : Type 0} → Sql S X L → S → GoMap (List ℕ) × (ℕ → Option L) × GoMap (ℕ × ℕ)
others q s = ((q.tables s).meta, (q.tables s).ledgers, (q.tables s).transactions)

module _ {S E X L : Type 0} (q : Sql S X L) (ql : IsSql q) where
  exec_upserts-others :
      (rows cached : List (List ℕ × List ℕ)) (w v : EntryWriter S E)
      → exec_upserts q rows cached w ≡ ok v
      → others q v.table ≡ others q w.table
  exec_upserts-others [] cached w v h = ap (λ u. others q u.table) (sym (ok-injective h))
  exec_upserts-others (r ∷ rows) cached w v h =
      let (t, done, h₁) =
        >>=-eq-ok (q.replace_entries w.table (r ∷ rows))
          (λ t. ok (record w { table = t; cache_tx = cache_upsert_all w.cache_tx cached })) h in
      ap (λ u. others q u.table) (sym (ok-injective h₁))
      ∙ ap (λ T. (T.meta, T.ledgers, T.transactions))
          (ql.replaces_entries w.table t (r ∷ rows) done)

  exec_deletes-others :
      (keys : List (List ℕ)) (w v : EntryWriter S E)
      → exec_deletes q keys w ≡ ok v
      → others q v.table ≡ others q w.table
  exec_deletes-others [] w v h = ap (λ u. others q u.table) (sym (ok-injective h))
  exec_deletes-others (key ∷ keys) w v h =
      let (t, done, h₁) =
        >>=-eq-ok (q.delete_entries w.table (key ∷ keys))
          (λ t. ok (record w { table = t; cache_tx = cache_delete_all w.cache_tx (key ∷ keys) }))
          h in
      ap (λ u. others q u.table) (sym (ok-injective h₁))
      ∙ ap (λ T. (T.meta, T.ledgers, T.transactions))
          (ql.deletes_entries w.table t (key ∷ keys) done)

  pub flush-others :
      {K : Type 0} (x : Xdr K E X) (order : Batch E → Batch E) (w u : EntryWriter S E)
      → flush q x order w ≡ ok u
      → others q u.table ≡ others q w.table
  unfolding flush
  flush-others x order w u h =
      let start = record w { key_to_entry_batch = [] } in
      let (p, planned, h₁) =
        >>=-eq-ok (plan x (order w.key_to_entry_batch))
          (λ p.
            exec_upserts q p.upserts p.cache_upserts start
            >>= (λ v. exec_deletes q p.delete_keys v))
          h in
      let (v, upserted, deleted) =
        >>=-eq-ok (exec_upserts q p.upserts p.cache_upserts start)
          (λ v. exec_deletes q p.delete_keys v) h₁ in
      exec_deletes-others p.delete_keys v u deleted
      ∙ exec_upserts-others p.upserts p.cache_upserts start v upserted
