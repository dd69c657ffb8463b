-- ===== src/Db/Writer/Flush.antt =====
-- What flush does to the table and to the pending updates of the cache, key by key.
use soroban_rpc.Common.{
  ℕ, ◌≡◌, refl, sym, ap, subst, ◌∙◌, inl, inr, Option, none, some, List, [], ◌∷◌, if◌then◌else◌,
  Bool-cases, ok, ok-injective, ◌>>=◌, >>=-eq-ok,
}
use soroban_rpc.Db.Cache.Lookup.{lookup, Unique}
use soroban_rpc.Db.Sql.{contains, Sql, IsSql}
use soroban_rpc.Db.Xdr.{Xdr}
use soroban_rpc.Db.Writer.{
  Batch, EntryWriter, Planned, plan, exec_upserts, exec_deletes, cache_upsert_all, cache_delete_all,
  flush,
}
use soroban_rpc.Db.Writer.Plan.{
  last_row, with_rows-last_row, cache_upsert_all-lookup, cache_delete_all-lookup, IsPlanned,
  plan-IsPlanned,
}

-- What an update of the batch makes of a row, and of a pending update of the cache.
module _ {K E X : Type 0} (x : Xdr K E X) where
  abbrev pub IsWritten : Option (Option E) → Option (List ℕ) → Option (List ℕ) → Type 0
  IsWritten none old new = new ≡ old
  IsWritten (some none) old new = new ≡ none
  IsWritten (some (some e)) old new =
      (bytes : List ℕ) × (x.encode_entry e ≡ ok bytes) × (new ≡ some bytes)

  abbrev pub IsPending :
      Option (Option E) → Option (Option (List ℕ)) → Option (Option (List ℕ)) → Type 0
  IsPending none old new = new ≡ old
  IsPending (some none) old new = new ≡ some none
  IsPending (some (some e)) old new =
      (bytes : List ℕ) × (x.encode_entry e ≡ ok bytes)
      × (new ≡ (if x.is_config e then some (some bytes) else old))

abbrev pub row : {S E X L : Type 0} → Sql S X L → EntryWriter S E → List ℕ → Option (List ℕ)
row q w k = (q.tables w.table).entries k

module _ {S E X L : Type 0} (q : Sql S X L) (ql : IsSql q) where
  exec_upserts-row :
      (rows cached : List (List ℕ × List ℕ)) (w v : EntryWriter S E) (k : List ℕ)
      → exec_upserts q rows cached w ≡ ok v
      → row q v k ≡ elim (last_row rows k) [ some b ↦ some b | none ↦ row q w k ]
  exec_upserts-row [] cached w v k h = ap (λ u. row q u k) (sym (ok-injective h))
  exec_upserts-row (r ∷ rows) cached w v k h =
      let (t, done, h₁) =
        >>=-eq-ok (q.replace_entries w.table (r ∷ rows))
          (λ t. ok (record w { table = t; cache_tx = cache_upsert_all w.cache_tx cached })) h in
      ap (λ u. row q u k) (sym (ok-injective h₁))
      ∙ ap (λ u. u.entries k) (ql.replaces_entries w.table t (r ∷ rows) done)
      ∙ with_rows-last_row (r ∷ rows) (q.tables w.table).entries k

  exec_deletes-row :
      (keys : List (List ℕ)) (w v : EntryWriter S E) (k : List ℕ)
      → exec_deletes q keys w ≡ ok v
      → row q v k ≡ (if contains keys k then none else row q w k)
  exec_deletes-row [] w v k h = ap (λ u. row q u k) (sym (ok-injective h))
  exec_deletes-row (key ∷ keys) w v k h =
      let (t, done, h₁) =
        >>=-eq-ok (q.delete_entries w.table (key ∷ keys))
          (λ t. ok (record w { table = t; cache_tx = cache_delete_all w.cache_tx (key ∷ keys) }))
          h in
      ap (λ u. row q u k) (sym (ok-injective h₁))
      ∙ ap (λ u. u.entries k) (ql.deletes_entries w.table t (key ∷ keys) done)

  -- Nothing is cached but what is written to the table.
  exec_upserts-cache :
      (rows cached : List (List ℕ × List ℕ)) (w v : EntryWriter S E) (k : List ℕ)
      → exec_upserts q rows cached w ≡ ok v
      → (last_row rows k ≡ none → last_row cached k ≡ none)
      → lookup v.cache_tx k
        ≡ elim (last_row cached k) [ some b ↦ some (some b) | none ↦ lookup w.cache_tx k ]
  exec_upserts-cache [] cached w v k h sub =
      ap (λ u. lookup u.cache_tx k) (sym (ok-injective h)) ∙ rw (sub refl) refl
  exec_upserts-cache (r ∷ rows) cached w v k h sub =
      let (t, done, h₁) =
        >>=-eq-ok (q.replace_entries w.table (r ∷ rows))
          (λ t. ok (record w { table = t; cache_tx = cache_upsert_all w.cache_tx cached })) h in
      ap (λ u. lookup u.cache_tx k) (sym (ok-injective h₁))
      ∙ cache_upsert_all-lookup w.cache_tx cached k

  exec_deletes-cache :
      (keys : List (List ℕ)) (w v : EntryWriter S E) (k : List ℕ)
      → exec_deletes q keys w ≡ ok v
      → lookup v.cache_tx k ≡ (if contains keys k then some none else lookup w.cache_tx k)
  exec_deletes-cache [] w v k h = ap (λ u. lookup u.cache_tx k) (sym (ok-injective h))
  exec_deletes-cache (key ∷ keys) w v k h =
      let (t, done, h₁) =
        >>=-eq-ok (q.delete_entries w.table (key ∷ keys))
          (λ t. ok (record w { table = t; cache_tx = cache_delete_all w.cache_tx (key ∷ keys) }))
          h in
      ap (λ u. lookup u.cache_tx k) (sym (ok-injective h₁))
      ∙ cache_delete_all-lookup w.cache_tx (key ∷ keys) k

  exec_upserts-rest :
      (rows cached : List (List ℕ × List ℕ)) (w v : EntryWriter S E)
      → exec_upserts q rows cached w ≡ ok v
      → v.key_to_entry_batch ≡ w.key_to_entry_batch
  exec_upserts-rest [] cached w v h = ap (λ u. u.key_to_entry_batch) (sym (ok-injective h))
  exec_upserts-rest (r ∷ rows) cached w v h =
      let (t, done, h₁) =
        >>=-eq-ok (q.replace_entries w.table (r ∷ rows))
          (λ t. ok (record w { table = t; cache_tx = cache_upsert_all w.cache_tx cached })) h in
      ap (λ u. u.key_to_entry_batch) (sym (ok-injective h₁))

  exec_deletes-rest :
      (keys : List (List ℕ)) (w v : EntryWriter S E)
      → exec_deletes q keys w ≡ ok v
      → v.key_to_entry_batch ≡ w.key_to_entry_batch
  exec_deletes-rest [] w v h = ap (λ u. u.key_to_entry_batch) (sym (ok-injective h))
  exec_deletes-rest (key ∷ keys) w v h =
      let (t, done, h₁) =
        >>=-eq-ok (q.delete_entries w.table (key ∷ keys))
          (λ t. ok (record w { table = t; cache_tx = cache_delete_all w.cache_tx (key ∷ keys) }))
          h in
      ap (λ u. u.key_to_entry_batch) (sym (ok-injective h₁))

  -- The two statements of a plan, for one key.
  executed :
      {K : Type 0} (x : Xdr K E X) (o : Option (Option E)) (p : Planned) (w v u : EntryWriter S E)
      (k : List ℕ)
      → IsPlanned x o k p
      → exec_upserts q p.upserts p.cache_upserts w ≡ ok v
      → exec_deletes q p.delete_keys v ≡ ok u
      → IsWritten x o (row q w k) (row q u k)
        × IsPending x o (lookup w.cache_tx k) (lookup u.cache_tx k)
  executed x none p w v u k (r, c, d) h₁ h₂ = (
    exec_deletes-row p.delete_keys v u k h₂
        ∙ rw d (exec_upserts-row p.upserts p.cache_upserts w v k h₁ ∙ rw r refl),
    exec_deletes-cache p.delete_keys v u k h₂
        ∙ rw d (exec_upserts-cache p.upserts p.cache_upserts w v k h₁ (λ _. c) ∙ rw c refl),
  )
  executed x (some none) p w v u k (r, c, d) h₁ h₂ = (
    exec_deletes-row p.delete_keys v u k h₂ ∙ rw d refl,
    exec_deletes-cache p.delete_keys v u k h₂ ∙ rw d refl,
  )
  executed x (some (some e)) p w v u k (b, n, r, c, d) h₁ h₂ = (
    (
      b,
      n,
      exec_deletes-row p.delete_keys v u k h₂
          ∙ rw d (exec_upserts-row p.upserts p.cache_upserts w v k h₁ ∙ rw r refl),
    ),
    (
      b,
      n,
      exec_deletes-cache p.delete_keys v u k h₂
          ∙ rw d (
              exec_upserts-cache p.upserts p.cache_upserts w v k h₁ (λ m. cc (r, m))
              ∙ elim (Bool-cases (x.is_config e)) [
                | inl config ↦ rw (c, config) refl
                | inr plain ↦ rw (c, plain) refl
              ]),
    ),
  )

-- An order in which Go meets the keys of a map: it has the same keys, each once.
abbrev pub IsOrder : {E : Type 0} → (Batch E → Batch E) → Type 0
IsOrder {E} order =
    (b : Batch E) → Unique b → Unique (order b) × ((k : List ℕ) → lookup (order b) k ≡ lookup b k)

-- A flush that succeeds empties the batch and writes each of its updates, and nothing else.
pub flush_writes :
    {S K E X L : Type 0} (q : Sql S X L) (ql : IsSql q) (x : Xdr K E X) (order : Batch E → Batch E)
    → IsOrder order
    → (w u : EntryWriter S E) → Unique w.key_to_entry_batch
    → flush q x order w ≡ ok u
    → (u.key_to_entry_batch ≡ [])
      × ((k : List ℕ)
          → IsWritten x (lookup w.key_to_entry_batch k) (row q w k) (row q u k)
            × IsPending x
                (lookup w.key_to_entry_batch k)
                (lookup w.cache_tx k)
                (lookup u.cache_tx k))
unfolding flush
flush_writes q ql x order fair w u unique h =
    let start = record w { key_to_entry_batch = [] } in
    let (p, planned, h₁) =
      >>=-eq-ok (plan x (order w.key_to_entry_batch))
        (λ p.
          exec_upserts q p.upserts p.cache_upserts start >>= (λ v. exec_deletes q p.delete_keys v))
        h in
    let (v, upserted, deleted) =
      >>=-eq-ok (exec_upserts q p.upserts p.cache_upserts start)
        (λ v. exec_deletes q p.delete_keys v) h₁ in
    let (ordered, same) = fair w.key_to_entry_batch unique in
    (
      exec_deletes-rest q ql p.delete_keys v u deleted
          ∙ exec_upserts-rest q ql p.upserts p.cache_upserts start v upserted,
      λ k.
          executed q ql x (lookup w.key_to_entry_batch k) p start v u k
            (subst (λ o. IsPlanned x o k p) (same k)
              (plan-IsPlanned x (order w.key_to_entry_batch) p planned ordered k))
            upserted deleted,
    )
