-- ===== src/Tests/Engine.antt =====
-- A database that never fails, an encoding that is the value itself, and the laws they keep.
use soroban_rpc.Common.{
  ℕ, ◌≡◌, refl, sym, ap, subst, ◌∙◌, inl, inr, Bool, true, false, Option, none, some, List, [], ◌∷◌,
  ◌==◌, if◌then◌else◌, Bool-cases, Option-cases, ok, ok-injective,
}
use soroban_rpc.Db.Cache.{GoMap, same_key, assign}
use soroban_rpc.Db.Cache.Lookup.{lookup, Unique, same_key-eq}
use soroban_rpc.Db.Sql.{
  Tables, Sql, IsSql, contains, with_rows, without_keys, ledgers_from, transactions_from,
  with_ledger, listed,
}
use soroban_rpc.Db.Xdr.{Xdr, IsXdr}
use soroban_rpc.Db.Commit.{TxSession}
use soroban_rpc.Db.Commit.Prepared.{IsTxSession}

-- The rows of some keys, each key once.
abbrev pub select : List (List ℕ) → GoMap (List ℕ) → List (List ℕ × List ℕ)
select [] table = []
select (k ∷ ks) table =
    let rest = select ks table in
    if contains ks k then rest else elim (table k) [ none ↦ rest | some v ↦ (k, v) ∷ rest ]

abbrev held : List (List ℕ) → GoMap (List ℕ) → List ℕ → Option (List ℕ)
held keys table k = if contains keys k then table k else none

add_row :
    (o : Option (List ℕ)) (j k : List ℕ) (rest : List (List ℕ × List ℕ))
    → lookup (elim o [ none ↦ rest | some v ↦ (j, v) ∷ rest ]) k
      ≡ (if same_key j k then elim o [ none ↦ lookup rest k | some v ↦ some v ] else lookup rest k)
add_row none j k rest = elim (Bool-cases (same_key j k)) [ inl m ↦ rw m refl | inr m ↦ rw m refl ]
add_row (some v) j k rest = refl

pub select-lookup :
    (keys : List (List ℕ)) (table : GoMap (List ℕ)) (k : List ℕ)
    → lookup (select keys table) k ≡ held keys table k
select-lookup [] table k = refl
select-lookup (j ∷ ks) table k = elim (Bool-cases (contains ks j)) [
  | inl later ↦ rw later (
      select-lookup ks table k ∙ elim (Bool-cases (same_key j k)) [
        | inl hit ↦
            let asked : contains ks k ≡ true =
              ap (contains ks) (sym (same_key-eq j k hit)) ∙ later in
            rw (hit, asked) refl
        | inr miss ↦ rw miss refl
      ])
  | inr last ↦ rw last (
      add_row (table j) j k (select ks table) ∙ elim (Bool-cases (same_key j k)) [
        | inl hit ↦
            let alone : contains ks k ≡ false =
              ap (contains ks) (sym (same_key-eq j k hit)) ∙ last in
            let same : table j ≡ table k = ap table (same_key-eq j k hit) in
            rw (hit, same)
              (elim (Option-cases (table k)) [
                | inl m ↦ rw m (select-lookup ks table k ∙ rw alone refl)
                | inr m ↦ rw m.1 refl
              ])
        | inr miss ↦ rw miss (select-lookup ks table k)
      ])
]

add_row-Unique :
    (o : Option (List ℕ)) (j : List ℕ) (rest : List (List ℕ × List ℕ))
    → lookup rest j ≡ none
    → Unique rest
    → Unique (elim o [ none ↦ rest | some v ↦ (j, v) ∷ rest ])
add_row-Unique none j rest fresh u = u
add_row-Unique (some v) j rest fresh u = (fresh, u)

select-Unique : (keys : List (List ℕ)) (table : GoMap (List ℕ)) → Unique (select keys table)
select-Unique [] table = tt
select-Unique (j ∷ ks) table = elim (Bool-cases (contains ks j)) [
  | inl later ↦ rw later (select-Unique ks table)
  | inr last ↦ rw last (
      add_row-Unique (table j) j (select ks table) (select-lookup ks table j ∙ rw last refl)
        (select-Unique ks table))
]

abbrev pub engine : Sql (Tables ℕ) ℕ ℕ
engine = record {
  tables = λ s. s;
  replace_entries = λ s rows. ok (record s { entries = with_rows rows s.entries });
  delete_entries = λ s keys. ok (record s { entries = without_keys keys s.entries });
  select_entries = λ s keys. ok (select keys s.entries, none);
  replace_meta = λ s key value. ok (record s { meta = assign s.meta key (some value) });
  select_meta = λ s key. ok (listed (s.meta key));
  insert_ledger = λ s n l. ok (record s { ledgers = with_ledger n l s.ledgers });
  select_ledger = λ s n. ok (listed (s.ledgers n));
  delete_ledgers_below = λ s cutoff. ok (record s { ledgers = ledgers_from cutoff s.ledgers });
  insert_transactions = λ s rows. ok (record s { transactions = with_rows rows s.transactions });
  delete_transactions_below =
      λ s cutoff. ok (record s { transactions = transactions_from cutoff s.transactions });
}

pub engine-IsSql : IsSql engine
engine-IsSql = record {
  replaces_entries = λ s t rows h. sym (ok-injective h);
  deletes_entries = λ s t keys h. sym (ok-injective h);
  selects_entries = λ s keys rows h.
      let same : select keys s.entries ≡ rows = ap (λ p. p.0) (ok-injective h) in
      subst (λ r. Unique r × ((k : List ℕ) → lookup r k ≡ held keys s.entries k)) same
        (select-Unique keys s.entries, select-lookup keys s.entries);
  replaces_meta = λ s t key value h. sym (ok-injective h);
  selects_meta = λ s key rows h. sym (ok-injective h);
  inserts_ledger = λ s t n l h. sym (ok-injective h);
  selects_ledger = λ s n rows h. sym (ok-injective h);
  deletes_ledgers = λ s t cutoff h. sym (ok-injective h);
  inserts_transactions = λ s t rows h. sym (ok-injective h);
  deletes_transactions = λ s t cutoff h. sym (ok-injective h);
}

-- A key is its bytes, with a first byte 8 for config settings; an entry is a key and a value.
abbrev pub is_config_key : List ℕ → Bool
is_config_key [] = false
is_config_key (b ∷ bs) = b == 8

abbrev pub encoding : Xdr (List ℕ) (List ℕ × List ℕ) ℕ
encoding = record {
  entry_key = λ e. ok e.0;
  encode_key = λ k. ok k;
  encode_entry = λ e. ok e.1;
  decode_entry = λ bytes. ok ([], bytes);
  is_config = λ e. is_config_key e.0;
  key_is_config = λ key. ok (is_config_key key);
}

pub encoding-IsXdr : IsXdr encoding
encoding-IsXdr = record {
  same_type = λ e k key h g.
      let named : e.0 ≡ k = ok-injective h in
      let coded : k ≡ key = ok-injective g in ap (λ j. ok (is_config_key j)) (sym (named ∙ coded));
}

abbrev pub session : TxSession (Tables ℕ) ℕ
session = record {
  commit_tx = λ s. ok s;
  rollback_tx = λ s. none;
  post_commit = λ s. none;
  is_not_in_transaction = λ e. false;
}

pub session-IsTxSession : IsTxSession engine session
session-IsTxSession = record { commits = λ s t h. sym (ok-injective h) }
