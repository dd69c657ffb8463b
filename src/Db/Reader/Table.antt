-- ===== src/Db/Reader/Table.antt =====
-- What GetLedgerEntries answers, read off the table.
use soroban_rpc.Common.{
  ℕ, ◌≡◌, refl, ap, fun_ext, ◌∙◌, inl, inr, true, Option, none, some, List, [], ◌∷◌, ◌++◌,
  Bool-cases, Outcome, ok, err, panic, ◌>>=◌,
}
use soroban_rpc.Db.Cache.{GoMap, same_key}
use soroban_rpc.Db.Cache.Lookup.{same_key_refl}
use soroban_rpc.Db.Sql.{Sql, IsSql, contains}
use soroban_rpc.Db.Xdr.{Xdr}
use soroban_rpc.Db.Meta.{DbCache}
use soroban_rpc.Db.Commit.Coherent.{IsCoherent}
use soroban_rpc.Db.Reader.{RawScan, returned, new_tx, new_cached_tx, get_raw_ledger_entries}
use soroban_rpc.Db.Reader.Cached.{get_raw_ledger_entries-found}
use soroban_rpc.Db.Reader.Answers.{answers, results-eq-answers}
use soroban_rpc.Db.Reader.Entries.{
  TtlXdr, LedgerKeyAndEntry, KeyToEncoded, answered, encode_keys, encoded_keys, ttl_entry, ttl_of,
  one_result, decoded, results, get_ledger_entries,
}

bind-ok : {A B : Type 0} (m : Outcome A B) → (m >>= (λ b. ok b)) ≡ m
bind-ok (ok b) = refl
bind-ok (err e) = refl
bind-ok panic = refl

module _ {K E X : Type 0} (x : Xdr K E X) (y : TtlXdr K E X) where
  -- Two raw results agree on some keys.
  abbrev Agrees : GoMap (List ℕ) → GoMap (List ℕ) → List (List ℕ) → Type 0
  Agrees raw table keys = (k : List ℕ) → contains keys k ≡ true → raw k ≡ table k

  contains-head : (k : List ℕ) (ks : List (List ℕ)) → contains (k ∷ ks) k ≡ true
  contains-head k ks = rw (same_key_refl k) refl

  contains-tail :
      (j k : List ℕ) (ks : List (List ℕ)) → contains ks k ≡ true → contains (j ∷ ks) k ≡ true
  contains-tail j k ks h =
      rw h (elim (Bool-cases (same_key j k)) [ inl m ↦ rw m refl | inr m ↦ rw m refl ])

  ttl-Agrees :
      (raw table : GoMap (List ℕ)) (o : Option (List ℕ)) (e : List ℕ) (rest : List (List ℕ))
      → Agrees raw table (e ∷ elim o [ none ↦ rest | some t ↦ t ∷ rest ])
      → (ttl_entry x y raw o ≡ ttl_entry x y table o) × Agrees raw table rest
  ttl-Agrees raw table none e rest h = (refl, λ k c. h k (contains-tail e k rest c))
  ttl-Agrees raw table (some t) e rest h = (
    ap (ttl_of x y) (h t (contains-tail e t (t ∷ rest) (contains-head t rest))),
    λ k c. h k (contains-tail e k (t ∷ rest) (contains-tail t k rest c)),
  )

  one_result-Agrees :
      (raw table : GoMap (List ℕ)) (k : KeyToEncoded K) (o : Option (List ℕ))
      (before : List (LedgerKeyAndEntry K E))
      → ttl_entry x y raw k.encoded_ttl_key ≡ ttl_entry x y table k.encoded_ttl_key
      → one_result x y raw k o before ≡ one_result x y table k o before
  one_result-Agrees raw table k none before e = refl
  one_result-Agrees raw table k (some bytes) before e =
      ap
        (λ r. decoded x y bytes >>= (λ v.
          r
          >>= (λ t. ok (before ++ (record { key = k.plain_key; entry = v; live_until = t } ∷ [])))))
        e

  results-Agrees :
      (raw table : GoMap (List ℕ)) (ks : List (KeyToEncoded K))
      (before : List (LedgerKeyAndEntry K E))
      → Agrees raw table (encoded_keys x y ks)
      → results x y raw ks before ≡ results x y table ks before
  results-Agrees raw table [] before h = refl
  results-Agrees raw table (k ∷ ks) before h =
      let (ttl, rest) =
        ttl-Agrees raw table k.encoded_ttl_key k.encoded_key (encoded_keys x y ks) h in
      let first : one_result x y raw k (raw k.encoded_key) before
          ≡ one_result x y table k (table k.encoded_key) before =
        ap (λ o. one_result x y raw k o before)
          (h k.encoded_key (
            contains-head k.encoded_key (elim k.encoded_ttl_key [
              | none ↦ encoded_keys x y ks
              | some t ↦ t ∷ encoded_keys x y ks
            ])))
        ∙ one_result-Agrees raw table k (table k.encoded_key) before ttl in
      ap (λ r. r >>= (λ after. results x y raw ks after)) first
      ∙ ap (λ f. one_result x y table k (table k.encoded_key) before >>= f)
          (fun_ext (λ after. results-Agrees raw table ks after rest))

  module _ {S L : Type 0} (q : Sql S X L) (ql : IsSql q) where
    -- With a cache of which every entry is a row of the table, and keys that can be encoded, a read
    -- transaction with the cache and one without it answer alike, where their raw reads return: for each
    -- key with a row, in the order of the keys, with the entry of the row and, for the data and the code
    -- of contracts, the ledger that it lives until, which the row of its TTL key holds; where that row is
    -- missing, or a row that is needed cannot be decoded, with the error.
    pub get_ledger_entries-results :
        (s : S) (cache : DbCache) (keys : List K) (ks : List (KeyToEncoded K)) (t u : RawScan)
        → IsCoherent x (q.tables s).entries cache.ledger_entries
        → encode_keys x y keys ≡ ok ks
        → get_raw_ledger_entries q x (new_cached_tx s cache) cache (encoded_keys x y ks)
          ≡ returned t
        → get_raw_ledger_entries q x (new_tx s cache) cache (encoded_keys x y ks) ≡ returned u
        → (get_ledger_entries x y q (new_cached_tx s cache) cache keys
            ≡ answered (answers x y (q.tables s).entries keys))
          × (get_ledger_entries x y q (new_tx s cache) cache keys
              ≡ answered (answers x y (q.tables s).entries keys))
    unfolding get_ledger_entries
    get_ledger_entries-results s cache keys ks t u coherent coded cached plain =
        let table = (q.tables s).entries in
        let promised : results x y table ks [] ≡ answers x y table keys =
          results-eq-answers x y table keys ks [] coded ∙ bind-ok (answers x y table keys) in
        let found =
          (get_raw_ledger_entries-found q x ql s cache (encoded_keys x y ks) t u coherent cached
            plain).0 in
        let of_cached : Agrees t.found table (encoded_keys x y ks) =
          λ k c. (found k).0 ∙ rw c refl in
        let of_plain : Agrees u.found table (encoded_keys x y ks) =
          λ k c. (found k).1 ∙ of_cached k c in
        (
          rw (get_ledger_entries, coded, cached)
              (ap answered (results-Agrees t.found table ks [] of_cached ∙ promised)),
          rw (get_ledger_entries, coded, plain)
              (ap answered (results-Agrees u.found table ks [] of_plain ∙ promised)),
        )
