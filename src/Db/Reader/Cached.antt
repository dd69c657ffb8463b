-- ===== src/Db/Reader/Cached.antt =====
-- Reads of ledger entries see the table, whether through a cache or not, and keep the caches right.
use soroban_rpc.Common.{
  ℕ, ◌≡◌, refl, sym, ap, subst, ◌∙◌, inl, inr, Bool, true, false, Option, none, some, List, [], ◌∷◌,
  ◌&&◌, if◌then◌else◌, Bool-cases, All, ok, Outcome-cases,
}
use soroban_rpc.Db.Cache.{CacheReadTx, GoMap, new_read_tx}
use soroban_rpc.Db.Sql.{Sql, IsSql, with_rows, contains}
use soroban_rpc.Db.Xdr.{Xdr}
use soroban_rpc.Db.Meta.{DbCache}
use soroban_rpc.Db.Commit.Coherent.{IsCoherent}
use soroban_rpc.Db.Reader.{
  RawScan, returned, keys_to_query, found_in_cache, scan_plain, scan_cached, query_plain,
  query_cached, get_raw_ledger_entries, new_tx, new_cached_tx,
}
use soroban_rpc.Db.Reader.Scans.{scan_plain-found, scan_cached-found, ended_by-returned}
use soroban_rpc.Db.Reader.Rows.{
  with_rows-lookup, rows-All, pick, missing, found_in_cache-lookup, keys_to_query-lookup,
}

module _ {S K E X L : Type 0} (q : Sql S X L) (x : Xdr K E X) where
  module _ (ql : IsSql q) (s : S) where
    abbrev rows_of : GoMap (List ℕ)
    rows_of = (q.tables s).entries

    selected :
        (keys : List (List ℕ)) (rows : List (List ℕ × List ℕ))
        → q.select_entries s keys ≡ ok (rows, none)
        → All (λ r. rows_of r.0 ≡ some r.1) rows
    selected keys rows answered =
        let (unique, looked) = ql.selects_entries s keys rows answered in
        rows-All (λ k v. rows_of k ≡ some v) rows unique
          (λ k v m. elim (Bool-cases (contains keys k)) [
            | inl asked ↦ rw asked at (sym (looked k) ∙ m)
            | inr other ↦ cc (rw other at (sym (looked k) ∙ m))
          ])

    queried :
        (keys : List (List ℕ)) (rows : List (List ℕ × List ℕ)) (found : GoMap (List ℕ)) (k : List ℕ)
        → q.select_entries s keys ≡ ok (rows, none)
        → with_rows rows found k
          ≡ elim (if contains keys k then rows_of k else none) [ some v ↦ some v | none ↦ found k ]
    queried keys rows found k answered =
        let (unique, looked) = ql.selects_entries s keys rows answered in
        with_rows-lookup rows found k unique ∙ rw (looked k) refl

    -- A query over what was found before.
    query_plain-found :
        (keys : List (List ℕ)) (start t : RawScan) (k : List ℕ)
        → query_plain q x keys s start ≡ returned t
        → (t.found k ≡ elim (if contains keys k then rows_of k else none) [
          | some v ↦ some v
          | none ↦ start.found k
        ])
          × (t.global_cache ≡ start.global_cache)
    query_plain-found [] start t k h =
        let same : t ≡ start = cc h in (ap (λ u. u.found k) same, ap (λ u. u.global_cache) same)
    query_plain-found (j ∷ ks) start t k h = elim (Outcome-cases (q.select_entries s (j ∷ ks))) [
      | inr (inl failure) ↦ cc (rw (query_plain, failure.1) at h)
      | inr (inr broken) ↦ cc (rw (query_plain, broken) at h)
      | inl ((rows, e), answered) ↦
          let (over, scanned) =
            ended_by-returned q x e (returned (scan_plain q x rows start)) t
              (rw (query_plain, answered) at h) in
          let same : t ≡ scan_plain q x rows start = cc scanned in
          let (found, global) = scan_plain-found q x rows start in
          (
            ap (λ u. u.found k) same
                ∙ ap (λ m. m k) found
                ∙ queried (j ∷ ks) rows start.found k (answered ∙ ap (λ o. ok (rows, o)) over),
            ap (λ u. u.global_cache) same ∙ global,
          )
    ]

    query_cached-found :
        (c : CacheReadTx) (keys : List (List ℕ)) (start t : RawScan) (k : List ℕ)
        → IsCoherent x rows_of start.global_cache.ledger_entries
        → query_cached q x c keys s start ≡ returned t
        → (t.found k ≡ elim (if contains keys k then rows_of k else none) [
          | some v ↦ some v
          | none ↦ start.found k
        ])
          × IsCoherent x rows_of t.global_cache.ledger_entries
    query_cached-found c [] start t k coherent h =
        let same : t ≡ start = cc h in
        (
          ap (λ u. u.found k) same,
          subst (λ u. IsCoherent x rows_of u.global_cache.ledger_entries) (sym same) coherent,
        )
    query_cached-found c (j ∷ ks) start t k coherent h =
        elim (Outcome-cases (q.select_entries s (j ∷ ks))) [
          | inr (inl failure) ↦ cc (rw (query_cached, failure.1) at h)
          | inr (inr broken) ↦ cc (rw (query_cached, broken) at h)
          | inl ((rows, e), answered) ↦
              let (over, scanned) =
                ended_by-returned q x e (scan_cached q x c rows start) t
                  (rw (query_cached, answered) at h) in
              let complete = answered ∙ ap (λ o. ok (rows, o)) over in
              let (found, global) =
                scan_cached-found q x rows_of c rows start t (selected (j ∷ ks) rows complete)
                  coherent scanned in
              (ap (λ m. m k) found ∙ queried (j ∷ ks) rows start.found k complete, global)
        ]

    abbrev over_row : List (List ℕ) → CacheReadTx → List ℕ → Option (List ℕ) → Option (List ℕ)
    over_row keys c k o = elim (if contains keys k && missing (c k) then rows_of k else none) [
      | some v ↦ some v
      | none ↦ o
    ]

    abbrev over_found : CacheReadTx → List (List ℕ) → List ℕ → Bool → Option (List ℕ)
    over_found c keys k b = elim (if b then rows_of k else none) [
      | some v ↦ some v
      | none ↦ found_in_cache c keys (λ k. none) k
    ]

    same_option : (o : Option (List ℕ)) → elim o [ some v ↦ some v | none ↦ none ] ≡ o
    same_option none = refl
    same_option (some v) = refl

    -- What a snapshot of the cache says of a key agrees with the table.
    agrees :
        (cached row : Option (List ℕ)) (asked : Bool)
        → ((v : List ℕ) → cached ≡ some v → row ≡ some v)
        → elim (if asked && missing (elim cached [ none ↦ none | some v ↦ some (some v) ])
            then row
            else none) [
              | some v ↦ some v
              | none ↦
                  if asked
                  then pick (elim cached [ none ↦ none | some v ↦ some (some v) ]) none
                  else none
            ]
          ≡ (if asked then row else none)
    agrees none none true h = refl
    agrees none (some v) true h = refl
    agrees (some v) row true h = sym (h v refl)
    agrees none row false h = refl
    agrees (some v) row false h = refl

    -- With a cache of which every entry is a row of the table, a read transaction with the cache finds
    -- what one without it finds, where they return: of the keys asked for, the rows of the table, and
    -- no others; and the read leaves the cache one of which every entry is a row of the table.
    pub get_raw_ledger_entries-found :
        (cache : DbCache) (keys : List (List ℕ)) (t u : RawScan)
        → IsCoherent x rows_of cache.ledger_entries
        → get_raw_ledger_entries q x (new_cached_tx s cache) cache keys ≡ returned t
        → get_raw_ledger_entries q x (new_tx s cache) cache keys ≡ returned u
        → ((k : List ℕ)
            → (t.found k ≡ (if contains keys k then rows_of k else none)) × (u.found k ≡ t.found k))
          × IsCoherent x rows_of t.global_cache.ledger_entries
    unfolding get_raw_ledger_entries new_cached_tx new_read_tx
    get_raw_ledger_entries-found cache keys t u coherent h g =
        let c : CacheReadTx = new_read_tx cache.ledger_entries in
        let start : RawScan = record {
          found = found_in_cache c keys (λ k. none);
          read_cache = some c;
          global_cache = cache;
          locked = false;
        } in
        let bare : RawScan = record {
          found = λ k. none;
          read_cache = none;
          global_cache = cache;
          locked = false;
        } in
        let cached =
          λ (k : List ℕ). query_cached-found c (keys_to_query c keys) start t k coherent h in
        (
          λ k.
              let table : t.found k ≡ (if contains keys k then rows_of k else none) =
                (cached k).0
                ∙ ap (over_found c keys k) (keys_to_query-lookup c keys k)
                ∙ ap (over_row keys c k) (found_in_cache-lookup c keys (λ k. none) k)
                ∙ (agrees (cache.ledger_entries k) (rows_of k) (contains keys k)
                    (λ v m. (coherent k v m).0)) in
              (
                table,
                (query_plain-found keys bare u k g).0
                    ∙ same_option (if contains keys k then rows_of k else none)
                    ∙ sym table,
              ),
          (cached []).1,
        )
