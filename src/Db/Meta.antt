-- ===== src/Db/Meta.antt =====
-- The metadata of internal/db/db.go: keys and values are strings, the latest ledger sequence and the
-- marks of migrations among them.
use soroban_rpc.Common.{
  ℕ, Bool, true, false, Option, none, some, List, [], ◌∷◌, ◌==◌, length, if◌then◌else◌, Outcome, ok,
  err, panic, ◌>>=◌, parse_uint,
}
use soroban_rpc.Db.Cache.{TransactionalCache, new_transactional_cache}
use soroban_rpc.Db.Sql.{Sql, contains}

-- latestLedgerSequenceMetaKey
abbrev pub latest_ledger_sequence_meta_key : List ℕ
latest_ledger_sequence_meta_key =
    76 ∷ 97 ∷ 116 ∷ 101 ∷ 115 ∷ 116 ∷ 76 ∷ 101 ∷ 100 ∷ 103 ∷ 101 ∷ 114 ∷ 83 ∷ 101 ∷ 113 ∷ 117 ∷ 101
    ∷ 110 ∷ 99 ∷ 101 ∷ []

-- ErrEmptyDB, more than one row, an error of the database, and what strconv cannot parse.
pub data MetaError (X : Type 0) : Type 0 where
  empty_db : MetaError X
  multiple_entries : ℕ → MetaError X
  cannot_select : X → MetaError X
  cannot_parse : MetaError X

-- dbCache, less its lock.
pub record DbCache : Type 0 where
  pub latest_ledger_seq : ℕ
  pub ledger_entries : TransactionalCache

-- The cache of OpenSQLiteDB.
abbrev pub new_db_cache : DbCache
new_db_cache = record { latest_ledger_seq = 0; ledger_entries = new_transactional_cache }

-- FormatBool and ParseBool of strconv
abbrev pub format_bool : Bool → List ℕ
format_bool true = 116 ∷ 114 ∷ 117 ∷ 101 ∷ []
format_bool false = 102 ∷ 97 ∷ 108 ∷ 115 ∷ 101 ∷ []

abbrev pub true_words : List (List ℕ)
true_words =
    (49 ∷ [])
    ∷ (116 ∷ [])
    ∷ (84 ∷ [])
    ∷ (84 ∷ 82 ∷ 85 ∷ 69 ∷ [])
    ∷ (116 ∷ 114 ∷ 117 ∷ 101 ∷ [])
    ∷ (84 ∷ 114 ∷ 117 ∷ 101 ∷ [])
    ∷ []

abbrev pub false_words : List (List ℕ)
false_words =
    (48 ∷ [])
    ∷ (102 ∷ [])
    ∷ (70 ∷ [])
    ∷ (70 ∷ 65 ∷ 76 ∷ 83 ∷ 69 ∷ [])
    ∷ (102 ∷ 97 ∷ 108 ∷ 115 ∷ 101 ∷ [])
    ∷ (70 ∷ 97 ∷ 108 ∷ 115 ∷ 101 ∷ [])
    ∷ []

abbrev pub parse_bool : List ℕ → Option Bool
parse_bool s =
    if contains true_words s then some true else if contains false_words s then some false else none

abbrev pub parsed : {X A : Type 0} → Option A → Outcome (MetaError X) A
parsed none = err cannot_parse
parsed (some a) = ok a

module _ {S X L : Type 0} (q : Sql S X L) where
  abbrev pub one_value : List (List ℕ) → Outcome (MetaError X) (List ℕ)
  one_value [] = err empty_db
  one_value (v ∷ []) = ok v
  one_value (v ∷ u ∷ vs) = err (multiple_entries (length (v ∷ u ∷ vs)))

  -- getMetaValue
  unfoldable pub get_meta_value : S → List ℕ → Outcome (MetaError X) (List ℕ)
  get_meta_value s key = elim (q.select_meta s key) [
    | ok rows ↦ one_value rows
    | err e ↦ err (cannot_select e)
    | panic ↦ panic
  ]

  -- getMetaBool and setMetaBool
  unfoldable pub get_meta_bool : S → List ℕ → Outcome (MetaError X) Bool
  unfolding get_meta_value
  get_meta_bool s key = get_meta_value s key >>= (λ v. parsed (parse_bool v))

  unfoldable pub set_meta_bool : S → List ℕ → Bool → Outcome X S
  set_meta_bool s key value = q.replace_meta s key (format_bool value)

  -- getLatestLedgerSequence, with what it leaves in the cache: an entry 0 counts as missing
  abbrev pub fill_latest : DbCache → ℕ → DbCache
  fill_latest cache seq =
      if cache.latest_ledger_seq == 0 then record cache { latest_ledger_seq = seq } else cache

  unfoldable pub get_latest_ledger_sequence : S → DbCache → Outcome (MetaError X) (ℕ × DbCache)
  unfolding get_meta_value
  get_latest_ledger_sequence s cache =
      get_meta_value s latest_ledger_sequence_meta_key
      >>= (λ v. parsed (parse_uint 32 v) >>= (λ seq. ok (seq, fill_latest cache seq)))
