-- ===== src/Db/Sql.antt =====
-- The statements that internal/db gives to SQLite, as an interface. A state is what one transaction
-- of a session sees; the four tables of sqlmigrations have a primary key each, so they are maps. A
-- statement may fail, and what it left behind is then not looked at: the transaction is rolled back.
use soroban_rpc.Common.{
  ℕ, ◌≡◌, Bool, false, Option, none, some, List, [], ◌∷◌, ◌||◌, ltb, if◌then◌else◌, Outcome, ok,
}
use soroban_rpc.Db.Cache.{same_key, GoMap, assign}
use soroban_rpc.Db.Cache.Lookup.{lookup, Unique}

-- ledger_entries, metadata, ledger_close_meta, and transactions with ledger_sequence and
-- application_order.
pub record Tables (L : Type 0) : Type 0 where
  pub entries : GoMap (List ℕ)
  pub meta : GoMap (List ℕ)
  pub ledgers : ℕ → Option L
  pub transactions : GoMap (ℕ × ℕ)

abbrev pub contains : List (List ℕ) → List ℕ → Bool
contains [] k = false
contains (key ∷ keys) k = same_key key k || contains keys k

module _ {V : Type 0} where
  -- REPLACE and INSERT of rows, and DELETE by keys.
  abbrev pub with_rows : List (List ℕ × V) → GoMap V → GoMap V
  with_rows [] table = table
  with_rows (r ∷ rows) table = with_rows rows (assign table r.0 (some r.1))

  abbrev pub without_keys : List (List ℕ) → GoMap V → GoMap V
  without_keys keys table k = if contains keys k then none else table k

-- DELETE with an upper bound on a number.
abbrev pub ledgers_from : {L : Type 0} → ℕ → (ℕ → Option L) → ℕ → Option L
ledgers_from cutoff ledgers n = if ltb n cutoff then none else ledgers n

abbrev pub kept_from : ℕ → Option (ℕ × ℕ) → Option (ℕ × ℕ)
kept_from cutoff none = none
kept_from cutoff (some t) = if ltb t.0 cutoff then none else some t

abbrev pub transactions_from : ℕ → GoMap (ℕ × ℕ) → GoMap (ℕ × ℕ)
transactions_from cutoff transactions k = kept_from cutoff (transactions k)

abbrev pub with_ledger : {L : Type 0} → ℕ → L → (ℕ → Option L) → ℕ → Option L
with_ledger n l ledgers m = if (ltb n m || ltb m n) then ledgers m else some l

abbrev pub listed : {V : Type 0} → Option V → List V
listed none = []
listed (some v) = v ∷ []

-- The statements.
pub record Sql (S X L : Type 0) : Type 0 where
  pub tables : S → Tables L
  pub replace_entries : S → List (List ℕ × List ℕ) → Outcome X S
  pub delete_entries : S → List (List ℕ) → Outcome X S
  -- the rows that are iterated over, and the error that ended the iteration early, if one did
  pub select_entries : S → List (List ℕ) → Outcome X (List (List ℕ × List ℕ) × Option X)
  pub replace_meta : S → List ℕ → List ℕ → Outcome X S
  pub select_meta : S → List ℕ → Outcome X (List (List ℕ))
  pub insert_ledger : S → ℕ → L → Outcome X S
  pub select_ledger : S → ℕ → Outcome X (List L)
  pub delete_ledgers_below : S → ℕ → Outcome X S
  pub insert_transactions : S → List (List ℕ × (ℕ × ℕ)) → Outcome X S
  pub delete_transactions_below : S → ℕ → Outcome X S

-- What SQL documents of them, where they succeed.
pub record IsSql {S X L : Type 0} (q : Sql S X L) : Type 0 where
  pub replaces_entries :
      (s t : S) (rows : List (List ℕ × List ℕ))
      → q.replace_entries s rows ≡ ok t
      → q.tables t ≡ record (q.tables s) { entries = with_rows rows (q.tables s).entries }
  pub deletes_entries :
      (s t : S) (keys : List (List ℕ))
      → q.delete_entries s keys ≡ ok t
      → q.tables t ≡ record (q.tables s) { entries = without_keys keys (q.tables s).entries }
  pub selects_entries :
      (s : S) (keys : List (List ℕ)) (rows : List (List ℕ × List ℕ))
      → q.select_entries s keys ≡ ok (rows, none)
      → Unique rows
        × ((k : List ℕ)
            → lookup rows k ≡ (if contains keys k then (q.tables s).entries k else none))
  pub replaces_meta :
      (s t : S) (key value : List ℕ)
      → q.replace_meta s key value ≡ ok t
      → q.tables t ≡ record (q.tables s) { meta = assign (q.tables s).meta key (some value) }
  pub selects_meta :
      (s : S) (key : List ℕ) (rows : List (List ℕ))
      → q.select_meta s key ≡ ok rows
      → rows ≡ listed ((q.tables s).meta key)
  pub inserts_ledger :
      (s t : S) (n : ℕ) (l : L)
      → q.insert_ledger s n l ≡ ok t
      → q.tables t ≡ record (q.tables s) { ledgers = with_ledger n l (q.tables s).ledgers }
  pub selects_ledger :
      (s : S) (n : ℕ) (rows : List L)
      → q.select_ledger s n ≡ ok rows
      → rows ≡ listed ((q.tables s).ledgers n)
  pub deletes_ledgers :
      (s t : S) (cutoff : ℕ)
      → q.delete_ledgers_below s cutoff ≡ ok t
      → q.tables t ≡ record (q.tables s) { ledgers = ledgers_from cutoff (q.tables s).ledgers }
  pub inserts_transactions :
      (s t : S) (rows : List (List ℕ × (ℕ × ℕ)))
      → q.insert_transactions s rows ≡ ok t
      → q.tables t ≡ record (q.tables s) { transactions = with_rows rows (q.tables s).transactions }
  pub deletes_transactions :
      (s t : S) (cutoff : ℕ)
      → q.delete_transactions_below s cutoff ≡ ok t
      → q.tables t
        ≡ record (q.tables s) { transactions = transactions_from cutoff (q.tables s).transactions }
