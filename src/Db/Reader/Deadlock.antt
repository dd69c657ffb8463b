-- ===== src/Db/Reader/Deadlock.antt =====
-- When a cached read blocks itself: the lock of the global cache is taken for every row of a config
-- setting, and given back only where the read returns.
use soroban_rpc.Common.{
  ℕ, ◌+◌, ◌≤◌, ◌≡◌, refl, ap, inl, inr, Bool, true, false, none, some, List, [], ◌∷◌, if◌then◌else◌,
  Bool-cases, arith, All, Outcome, ok, err, panic,
}
use soroban_rpc.Db.Cache.{CacheReadTx, read_upsert}
use soroban_rpc.Db.Sql.{Sql}
use soroban_rpc.Db.Xdr.{Xdr}
use soroban_rpc.Db.Meta.{DbCache}
use soroban_rpc.Db.Reader.{
  LedgerEntryReadTx, RawScan, returned, blocked, keys_to_query, found_in_cache, scan_cached,
  cache_row, lock_row, ended_by, query_cached, get_raw_ledger_entries,
}

module _ {S K E X L : Type 0} (q : Sql S X L) (x : Xdr K E X) where
  -- A row whose key is of a known type, and the number of rows of config settings.
  abbrev pub IsTyped : List ℕ × List ℕ → Type 0
  IsTyped r = (config : Bool) × (x.key_is_config r.0 ≡ ok config)

  abbrev pub add_config : Outcome X Bool → ℕ → ℕ
  add_config (ok true) n = n + 1
  add_config (ok false) n = n
  add_config (err _) n = n
  add_config panic n = n

  abbrev pub config_rows : List (List ℕ × List ℕ) → ℕ
  config_rows [] = 0
  config_rows (r ∷ rows) = add_config (x.key_is_config r.0) (config_rows rows)

  abbrev pub held : RawScan → ℕ
  held s = if s.locked then 1 else 0

  scan_cached-blocks :
      (c : CacheReadTx) (rows : List (List ℕ × List ℕ)) (s : RawScan)
      → All IsTyped rows
      → 2 ≤ held s + config_rows rows
      → scan_cached q x c rows s ≡ blocked
  scan_cached-blocks c [] s typed h = elim (Bool-cases s.locked) [
    | inl taken ↦ let one : 2 ≤ 1 + 0 = rw taken at h in ground (arith, one)
    | inr free ↦ let nothing : 2 ≤ 0 + 0 = rw free at h in ground (arith, nothing)
  ]
  scan_cached-blocks c (r ∷ rows) s ((false, plain), typed) h =
      rw (scan_cached, plain)
        (scan_cached-blocks (read_upsert c r.0 (some r.1)) rows (cache_row q x c r s) typed
          (rw plain at h))
  scan_cached-blocks c (r ∷ rows) s ((true, config), typed) h = elim (Bool-cases s.locked) [
    | inl taken ↦ rw (scan_cached, config, taken) refl
    | inr free ↦
        let counted : 2 ≤ held s + (config_rows rows + 1) = rw config at h in
        let rest : 2 ≤ 0 + (config_rows rows + 1) = rw free at counted in
        rw (scan_cached, config, free)
          (scan_cached-blocks (read_upsert c r.0 (some r.1)) rows
            (lock_row q x r (cache_row q x c r s)) typed (omega (arith, rest)))
  ]

  scan_cached-returns :
      (c : CacheReadTx) (rows : List (List ℕ × List ℕ)) (s : RawScan)
      → All IsTyped rows
      → held s + config_rows rows ≤ 1
      → (t : RawScan) × (scan_cached q x c rows s ≡ returned t)
  scan_cached-returns c [] s typed h = (s, refl)
  scan_cached-returns c (r ∷ rows) s ((false, plain), typed) h =
      rw (scan_cached, plain)
        (scan_cached-returns (read_upsert c r.0 (some r.1)) rows (cache_row q x c r s) typed
          (rw plain at h))
  scan_cached-returns c (r ∷ rows) s ((true, config), typed) h = elim (Bool-cases s.locked) [
    | inl taken ↦
        let counted : held s + (config_rows rows + 1) ≤ 1 = rw config at h in
        let rest : 1 + (config_rows rows + 1) ≤ 1 = rw taken at counted in ground (arith, rest)
    | inr free ↦
        let counted : held s + (config_rows rows + 1) ≤ 1 = rw config at h in
        let rest : 0 + (config_rows rows + 1) ≤ 1 = rw free at counted in
        rw (scan_cached, config, free)
          (scan_cached-returns (read_upsert c r.0 (some r.1)) rows
            (lock_row q x r (cache_row q x c r s)) typed (omega (arith, rest)))
  ]

  -- A read through the cache of its transaction whose query answers with rows of known types blocks
  -- for good if two or more of them are config settings, and returns if at most one is.
  pub get_raw_ledger_entries-blocked :
      (tx : LedgerEntryReadTx S) (cache : DbCache) (c : CacheReadTx) (keys : List (List ℕ))
      (k : List ℕ) (ks : List (List ℕ)) (rows : List (List ℕ × List ℕ))
      → tx.cache_read_tx ≡ some c
      → keys_to_query c keys ≡ k ∷ ks
      → q.select_entries tx.snapshot (k ∷ ks) ≡ ok (rows, none)
      → All IsTyped rows
      → (2 ≤ config_rows rows → get_raw_ledger_entries q x tx cache keys ≡ blocked)
        × (config_rows rows ≤ 1
            → (t : RawScan) × (get_raw_ledger_entries q x tx cache keys ≡ returned t))
  unfolding get_raw_ledger_entries
  get_raw_ledger_entries-blocked tx cache c keys k ks rows cached missing answered typed =
      let start : RawScan = record {
        found = found_in_cache c keys (λ k. none);
        read_cache = some c;
        global_cache = cache;
        locked = false;
      } in
      (
        λ two.
            rw (get_raw_ledger_entries, cached, missing, query_cached, answered)
              (ap (ended_by q x none) (scan_cached-blocks c rows start typed (omega (arith, two)))),
        λ one.
            let (t, e) = scan_cached-returns c rows start typed (omega (arith, one)) in
            (
              t,
              rw (get_raw_ledger_entries, cached, missing, query_cached, answered)
                  (ap (ended_by q x none) e),
            ),
      )
