-- ===== src/Db/Reader/Answers.antt =====
-- What GetLedgerEntries promises: for each key that has a row, in the order of the keys, the entry of
-- the row and, for the data and the code of contracts, the ledger that the entry lives until.
use mathlib.Core.List.{append_assoc, append-nil}
use soroban_rpc.Common.{
  ℕ, ◌≡◌, refl, sym, ap, fun_ext, ◌∙◌, inl, inr, Option, none, some, List, [], ◌∷◌, ◌++◌,
  if◌then◌else◌, Bool-cases, Outcome, ok, err, panic, ◌>>=◌, >>=-eq-ok, ok-injective,
}
use soroban_rpc.Db.Cache.{GoMap}
use soroban_rpc.Db.Xdr.{Xdr}
use soroban_rpc.Db.Reader.Entries.{
  TtlXdr, LedgerKeyAndEntry, KeyToEncoded, EntriesError, cannot_encode, cannot_decode, missing_ttl,
  encode_ttl, encode_keys, ttl_of, ttl_entry, one_result, results,
}

module _ {K E X : Type 0} (x : Xdr K E X) (y : TtlXdr K E X) where
  abbrev entry_in : List ℕ → Outcome (EntriesError X) E
  entry_in bytes = elim (x.decode_entry bytes) [
    | ok e ↦ ok e
    | err e ↦ err (cannot_decode e)
    | panic ↦ panic
  ]

  -- The key under which the ledger is stored that the entry of a key lives until.
  abbrev ttl_key : K → Outcome X (List ℕ)
  ttl_key k = y.marshal_key k >>= (λ bytes. y.set_ttl (y.sha256 bytes)) >>= x.encode_key

  -- The ledger in a row, which has to be there.
  abbrev ttl_row : Option (List ℕ) → Outcome (EntriesError X) (Option ℕ)
  ttl_row none = err missing_ttl
  ttl_row (some bytes) =
      entry_in bytes
      >>= (λ ttl. elim (y.live_until_ledger_seq ttl) [ none ↦ panic | some n ↦ ok (some n) ])

  -- A key that is encoded, or the error of that.
  abbrev with_encoded :
      {A : Type 0}
      → Outcome X (List ℕ)
      → (List ℕ → Outcome (EntriesError X) A)
      → Outcome (EntriesError X) A
  with_encoded (ok key) next = next key
  with_encoded (err e) next = err (cannot_encode e)
  with_encoded panic next = panic

  abbrev ttl_in : GoMap (List ℕ) → K → Outcome (EntriesError X) (Option ℕ)
  ttl_in table k = with_encoded (ttl_key k) (λ t. ttl_row (table t))

  -- The data and the code of contracts live until a ledger, all other entries for good.
  abbrev lives_until : GoMap (List ℕ) → K → Outcome (EntriesError X) (Option ℕ)
  lives_until table k =
      if y.is_contract_data k
      then ttl_in table k
      else (if y.is_contract_code k then ttl_in table k else ok none)

  -- The answer for one key, none if it has no row.
  abbrev row_answer :
      GoMap (List ℕ) → K → Option (List ℕ) → Outcome (EntriesError X) (List (LedgerKeyAndEntry K E))
  row_answer table k none = ok []
  row_answer table k (some bytes) = entry_in bytes >>= (λ e.
      lives_until table k >>= (λ t. ok (record { key = k; entry = e; live_until = t } ∷ [])))

  abbrev pub answers :
      GoMap (List ℕ) → List K → Outcome (EntriesError X) (List (LedgerKeyAndEntry K E))
  answers table [] = ok []
  answers table (k ∷ ks) =
      let others = answers table ks in
      with_encoded (x.encode_key k) (λ key.
        row_answer table k (table key) >>= (λ first. others >>= (λ rest. ok (first ++ rest))))

  ttl_of-eq : (row : Option (List ℕ)) → ttl_of x y row ≡ ttl_row row
  ttl_of-eq none = refl
  ttl_of-eq (some bytes) = refl

  ttl_of-ttl_in :
      (table : GoMap (List ℕ)) (k : K) (o : Option (List ℕ))
      → (y.marshal_key k
          >>= (λ bytes. y.set_ttl (y.sha256 bytes))
          >>= (λ t. x.encode_key t >>= (λ e. ok (some e))))
        ≡ ok o
      → ttl_entry x y table o ≡ ttl_in table k
  ttl_of-ttl_in table k o h =
      let (t, ht, rest) =
        >>=-eq-ok (y.marshal_key k >>= (λ bytes. y.set_ttl (y.sha256 bytes))) _ h in
      let (e, he, same) = >>=-eq-ok (x.encode_key t) _ rest in
      let found : ttl_key k ≡ ok e = ap (λ c. c >>= x.encode_key) ht ∙ he in
      ap (λ p. ttl_entry x y table p) (sym (ok-injective same))
      ∙ ttl_of-eq (table e)
      ∙ sym (ap (λ o. with_encoded o (λ t. ttl_row (table t))) found)

  -- The TTL key that the code put beside a key leads to the ledger of the specification.
  ttl_entry-lives_until :
      (table : GoMap (List ℕ)) (k : K) (o : Option (List ℕ))
      → encode_ttl x y k ≡ ok o
      → ttl_entry x y table o ≡ lives_until table k
  ttl_entry-lives_until table k o h = elim (Bool-cases (y.is_contract_data k)) [
    | inl data_key ↦ rw data_key (ttl_of-ttl_in table k o (rw data_key at h))
    | inr other ↦ elim (Bool-cases (y.is_contract_code k)) [
      | inl code_key ↦ rw (other, code_key) (ttl_of-ttl_in table k o (rw (other, code_key) at h))
      | inr no_key ↦
          let nothing : none ≡ o = ok-injective (rw (other, no_key) at h) in
          rw (other, no_key) (ap (λ p. ttl_entry x y table p) (sym nothing))
    ]
  ]

  -- An answer put behind others, and the answers behind it.
  behind :
      (m : Outcome (EntriesError X) E) (n : Outcome (EntriesError X) (Option ℕ)) (k : K)
      (before : List (LedgerKeyAndEntry K E))
      → (m >>= (λ e.
          n >>= (λ t. ok (before ++ (record { key = k; entry = e; live_until = t } ∷ [])))))
        ≡ (m
            >>= (λ e. n >>= (λ t. ok (record { key = k; entry = e; live_until = t } ∷ [])))
            >>= (λ first. ok (before ++ first)))
  behind panic n k before = refl
  behind (err e) n k before = refl
  behind (ok e) panic k before = refl
  behind (ok e) (err f) k before = refl
  behind (ok e) (ok t) k before = refl

  all_behind :
      (m n : Outcome (EntriesError X) (List (LedgerKeyAndEntry K E)))
      (before : List (LedgerKeyAndEntry K E))
      → (m >>= (λ first. ok (before ++ first)) >>= (λ after. n >>= (λ rest. ok (after ++ rest))))
        ≡ (m >>= (λ first. n >>= (λ rest. ok (first ++ rest))) >>= (λ all. ok (before ++ all)))
  all_behind panic n before = refl
  all_behind (err e) n before = refl
  all_behind (ok first) panic before = refl
  all_behind (ok first) (err e) before = refl
  all_behind (ok first) (ok rest) before = ap ok (append_assoc before first rest)

  encode_keys-cons :
      (k : K) (ks : List K) (zs : List (KeyToEncoded K))
      → encode_keys x y (k ∷ ks) ≡ ok zs
      → (e : List ℕ) × (o : Option (List ℕ)) × (rest : List (KeyToEncoded K)) × (x.encode_key k
          ≡ ok e)
        × (encode_ttl x y k ≡ ok o)
        × (encode_keys x y ks ≡ ok rest)
        × (zs ≡ record { plain_key = k; encoded_key = e; encoded_ttl_key = o } ∷ rest)
  encode_keys-cons k ks zs h =
      let (e, he, h1) = >>=-eq-ok (x.encode_key k) _ h in
      let (o, ho, h2) = >>=-eq-ok (encode_ttl x y k) _ h1 in
      let (rest, hr, h3) = >>=-eq-ok (encode_keys x y ks) _ h2 in (e, o, rest, he, ho, hr, cc)

  one_result-eq :
      (table : GoMap (List ℕ)) (k : K) (e : List ℕ) (o : Option (List ℕ)) (row : Option (List ℕ))
      (before : List (LedgerKeyAndEntry K E))
      → ttl_entry x y table o ≡ lives_until table k
      → one_result x y table
          (record { plain_key = k; encoded_key = e; encoded_ttl_key = o })
          row
          before
        ≡ (row_answer table k row >>= (λ first. ok (before ++ first)))
  one_result-eq table k e o none before h = rw append-nil refl
  one_result-eq table k e o (some bytes) before h =
      ap
        (λ r. entry_in bytes >>= (λ e.
          r >>= (λ t. ok (before ++ (record { key = k; entry = e; live_until = t } ∷ [])))))
        h
      ∙ behind (entry_in bytes) (lives_until table k) k before

  -- For keys that can be encoded, the loops of the code over a table give the answers it promises.
  pub results-eq-answers :
      (table : GoMap (List ℕ)) (keys : List K) (ks : List (KeyToEncoded K))
      (before : List (LedgerKeyAndEntry K E))
      → encode_keys x y keys ≡ ok ks
      → results x y table ks before ≡ (answers table keys >>= (λ rest. ok (before ++ rest)))
  results-eq-answers table [] ks before h = rw (sym (ok-injective h), append-nil) refl
  results-eq-answers table (k ∷ keys) ks before h =
      let (e, o, rest, he, ho, hr, split) = encode_keys-cons k keys ks h in
      let others = answers table keys in
      ap (λ zs. results x y table zs before) split
      ∙ ap (λ r. r >>= (λ after. results x y table rest after))
          (one_result-eq table k e o (table e) before (ttl_entry-lives_until table k o ho))
      ∙ ap (λ f. row_answer table k (table e) >>= (λ first. ok (before ++ first)) >>= f)
          (fun_ext (λ after. results-eq-answers table keys rest after hr))
      ∙ all_behind (row_answer table k (table e)) others before
      ∙ ap (λ r. r >>= (λ all. ok (before ++ all)))
          (sym (
            ap
              (λ c. with_encoded c (λ key.
                row_answer table k (table key)
                >>= (λ first. others >>= (λ rest. ok (first ++ rest)))))
              he))
