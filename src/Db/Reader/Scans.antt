-- ===== src/Db/Reader/Scans.antt =====
-- What one scan of the rows of a query leaves, with the cache or without.
use soroban_rpc.Common.{
  ℕ, ◌≡◌, refl, subst, ◌∙◌, inl, inr, true, false, Option, none, some, List, [], ◌∷◌, Bool-cases,
  Option-cases, All, ok, Outcome-cases,
}
use soroban_rpc.Db.Cache.{CacheReadTx, GoMap, same_key, assign, read_upsert}
use soroban_rpc.Db.Cache.Lookup.{same_key-eq}
use soroban_rpc.Db.Sql.{Sql, with_rows}
use soroban_rpc.Db.Xdr.{Xdr}
use soroban_rpc.Db.Meta.{DbCache}
use soroban_rpc.Db.Commit.Coherent.{IsCoherent}
use soroban_rpc.Db.Reader.{
  RawScan, RawRead, returned, failed, blocked, read_panicked, scan_plain, scan_cached, cache_row,
  lock_row, ended_by, add_global,
}

module _ {S K E X L : Type 0} (q : Sql S X L) (x : Xdr K E X) where
  pub scan_plain-found :
      (rows : List (List ℕ × List ℕ)) (s : RawScan)
      → ((scan_plain q x rows s).found ≡ with_rows rows s.found)
        × ((scan_plain q x rows s).global_cache ≡ s.global_cache)
  scan_plain-found [] s = (refl, refl)
  scan_plain-found (r ∷ rows) s =
      scan_plain-found rows (record s { found = assign s.found r.0 (some r.1) })

  pub add_global-IsCoherent :
      (table : GoMap (List ℕ)) (key entry : List ℕ) (cache : DbCache)
      → table key ≡ some entry
      → x.key_is_config key ≡ ok true
      → IsCoherent x table cache.ledger_entries
      → IsCoherent x table (add_global key entry cache).ledger_entries
  add_global-IsCoherent table key entry cache row config coherent =
      elim (Option-cases (cache.ledger_entries key)) [
        | inr held ↦ rw (add_global, held.1) coherent
        | inl gone ↦
            rw (add_global, gone)
              (λ k v m. elim (Bool-cases (same_key key k)) [
                | inl hit ↦
                    let value : some entry ≡ some v = rw hit at m in
                    subst (λ j. (table j ≡ some v) × (x.key_is_config j ≡ ok true))
                      (same_key-eq key k hit) (row ∙ value, config)
                | inr miss ↦ coherent k v (rw miss at m)
              ])
      ]

  -- What a cached scan returns: the rows over what it started with, and a coherent global cache.
  abbrev pub IsScanned : GoMap (List ℕ) → List (List ℕ × List ℕ) → RawScan → RawScan → Type 0
  IsScanned table rows s t =
      (t.found ≡ with_rows rows s.found) × IsCoherent x table t.global_cache.ledger_entries

  pub scan_cached-found :
      (table : GoMap (List ℕ)) (c : CacheReadTx) (rows : List (List ℕ × List ℕ)) (s t : RawScan)
      → All (λ r. table r.0 ≡ some r.1) rows
      → IsCoherent x table s.global_cache.ledger_entries
      → scan_cached q x c rows s ≡ returned t
      → IsScanned table rows s t
  scan_cached-found table c [] s t held coherent h =
      let same : s ≡ t = cc h in subst (IsScanned table [] s) same (refl, coherent)
  scan_cached-found table c (r ∷ rows) s t (row, held) coherent h =
      elim (Outcome-cases (x.key_is_config r.0)) [
        | inr (inl failure) ↦ cc (rw (scan_cached, failure.1) at h)
        | inr (inr broken) ↦ cc (rw (scan_cached, broken) at h)
        | inl (false, plain) ↦
            scan_cached-found table (read_upsert c r.0 (some r.1)) rows (cache_row q x c r s) t held
              coherent (rw (scan_cached, plain) at h)
        | inl (true, config) ↦ elim (Bool-cases s.locked) [
          | inl taken ↦ cc (rw (scan_cached, config, taken) at h)
          | inr free ↦
              scan_cached-found table (read_upsert c r.0 (some r.1)) rows
                (lock_row q x r (cache_row q x c r s)) t held
                (add_global-IsCoherent table r.0 r.1 s.global_cache row config coherent)
                (rw (scan_cached, config, free) at h)
        ]
      ]

  pub ended_by-returned :
      (e : Option X) (read : RawRead X) (t : RawScan)
      → ended_by q x e read ≡ returned t
      → (e ≡ none) × (read ≡ returned t)
  ended_by-returned none read t h = (refl, h)
  ended_by-returned (some e) (returned s) t h = cc h
  ended_by-returned (some e) (failed f s) t h = cc h
  ended_by-returned (some e) blocked t h = cc h
  ended_by-returned (some e) read_panicked t h = cc h
