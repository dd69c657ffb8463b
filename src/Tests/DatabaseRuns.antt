-- ===== src/Tests/DatabaseRuns.antt =====
-- Entries written in batches of two, the commit of a ledger, and reads through the cache.
use soroban_rpc.Common.{
  ℕ, ◌≡◌, ◌≤◌, refl, subst, ◌∙◌, inl, inr, Bool-cases, true, false, Option, none, some, List, [],
  ◌∷◌, arith, Outcome, ok, if◌then◌else◌, format_uint,
}
use soroban_rpc.Db.Cache.{assign, put, same_key, new_read_tx}
use soroban_rpc.Db.Cache.Lookup.{lookup, Unique, put-lookup, put-Unique, same_key-eq}
use soroban_rpc.Db.Sql.{Tables, contains}
use soroban_rpc.Db.Writer.{
  EntryWriter, new_entry_writer, flush, maybe_flush, upsert_ledger_entry, delete_ledger_entry,
}
use soroban_rpc.Db.Writer.Calls.{
  EntryWrite, upserted, deleted, ledger_inserted, last_write, write_all,
}
use soroban_rpc.Db.Writer.Flush.{IsWritten, row}
use soroban_rpc.Db.Writer.Writes.{flush-write_all}
use soroban_rpc.Db.Meta.{
  DbCache, get_latest_ledger_sequence, latest_ledger_sequence_meta_key, fill_latest, new_db_cache,
}
use soroban_rpc.Db.Ledgers.Trim.{retained, retained_transactions}
use soroban_rpc.Db.Commit.{Committed, committed, commit_write_tx}
use soroban_rpc.Db.Commit.Retained.{commit_write_tx-tables, get_latest_ledger_sequence-commit}
use soroban_rpc.Db.Commit.Coherent.{IsCoherent, commit_write_tx-IsCoherent}
use soroban_rpc.Db.Reader.{
  RawScan, RawRead, returned, blocked, new_cached_tx, new_tx, get_raw_ledger_entries,
}
use soroban_rpc.Db.Reader.Cached.{get_raw_ledger_entries-found}
use soroban_rpc.Db.Reader.Deadlock.{get_raw_ledger_entries-blocked, config_rows}
use soroban_rpc.Tests.Engine.{
  engine, engine-IsSql, encoding, encoding-IsXdr, session, session-IsTxSession,
}

abbrev empty_db : Tables ℕ
empty_db = record {
  entries = assign (λ k. none) (1 ∷ []) (some (10 ∷ []));
  meta = λ k. none;
  ledgers = λ n. some n;
  transactions = assign (λ k. none) (1 ∷ []) (some (3, 1));
}

abbrev in_turn : {V : Type 0} → List (List ℕ × V) → List (List ℕ × V)
in_turn b = b

abbrev calls : List (EntryWrite (List ℕ) (List ℕ × List ℕ) ℕ)
calls =
    upserted (8 ∷ [], 80 ∷ [])
    ∷ upserted (2 ∷ [], 20 ∷ [])
    ∷ ledger_inserted 9 9
    ∷ deleted (1 ∷ [])
    ∷ []

abbrev after_calls : Outcome ℕ (EntryWriter (Tables ℕ) (List ℕ × List ℕ))
after_calls = write_all engine encoding in_turn (new_entry_writer empty_db 2) calls

-- The writer after the calls, after a flush, and after the commit of ledger 9 with a window of 5.
abbrev written : EntryWriter (Tables ℕ) (List ℕ × List ℕ)
unfolding upsert_ledger_entry delete_ledger_entry maybe_flush flush
written = elim (write_all engine encoding in_turn (new_entry_writer empty_db 2) calls) [
  | ok w ↦ w
  | _ ↦ new_entry_writer empty_db 2
]

abbrev flushed : EntryWriter (Tables ℕ) (List ℕ × List ℕ)
unfolding upsert_ledger_entry delete_ledger_entry maybe_flush flush
flushed = elim (flush engine encoding in_turn written) [ ok w ↦ w | _ ↦ written ]

-- An order of the pending updates in which each key comes once.
abbrev pending_order : List (List ℕ × Option (List ℕ)) → List (List ℕ × Option (List ℕ))
pending_order [] = []
pending_order (u ∷ us) = put (pending_order us) u.0 u.1

pending_order-Unique : (us : List (List ℕ × Option (List ℕ))) → Unique (pending_order us)
pending_order-Unique [] = tt
pending_order-Unique (u ∷ us) = put-Unique (pending_order us) u.0 u.1 (pending_order-Unique us)

pending_order-lookup :
    (us : List (List ℕ × Option (List ℕ))) (k : List ℕ) → lookup (pending_order us) k ≡ lookup us k
pending_order-lookup [] k = refl
pending_order-lookup (u ∷ us) k =
    put-lookup (pending_order us) u.0 k u.1 ∙ rw (pending_order-lookup us k) refl

abbrev commit_result : Committed (Tables ℕ) ℕ
unfolding upsert_ledger_entry delete_ledger_entry maybe_flush flush commit_write_tx
commit_result =
    commit_write_tx engine encoding in_turn pending_order session 9 5 written new_db_cache

abbrev state_of : Committed (Tables ℕ) ℕ → Tables ℕ × DbCache
state_of (committed s cache e) = (s, cache)
state_of _ = (empty_db, new_db_cache)

abbrev stored : Tables ℕ
unfolding upsert_ledger_entry delete_ledger_entry maybe_flush flush commit_write_tx
stored = (state_of commit_result).0

abbrev stored_cache : DbCache
unfolding upsert_ledger_entry delete_ledger_entry maybe_flush flush commit_write_tx
stored_cache = (state_of commit_result).1

flush-write_all_example :
    IsWritten encoding
      (last_write encoding calls (8 ∷ []))
      (empty_db.entries (8 ∷ []))
      (row engine flushed (8 ∷ []))
unfolding upsert_ledger_entry delete_ledger_entry maybe_flush flush
flush-write_all_example =
    flush-write_all engine encoding in_turn engine-IsSql (λ b u. (u, λ k. refl)) encoding-IsXdr
      empty_db 2 calls written flushed refl refl (8 ∷ [])

commit_write_tx-tables_example :
    ((k : List ℕ)
      → IsWritten encoding
          (lookup written.key_to_entry_batch k)
          (row engine written k)
          (stored.entries k))
    × (stored.ledgers ≡ retained 9 5 written.table.ledgers)
    × (stored.transactions ≡ retained_transactions 9 5 written.table.transactions)
    × (stored.meta
        ≡ assign written.table.meta latest_ledger_sequence_meta_key (some (format_uint 9)))
unfolding upsert_ledger_entry delete_ledger_entry maybe_flush flush commit_write_tx
commit_write_tx-tables_example =
    commit_write_tx-tables engine encoding in_turn pending_order session engine-IsSql
      session-IsTxSession (λ b u. (u, λ k. refl)) 9 5 written new_db_cache stored_cache stored none
      (refl, tt) (omega arith) refl

get_latest_ledger_sequence-commit_example :
    (get_latest_ledger_sequence engine stored stored_cache
      ≡ ok (9, fill_latest engine stored_cache 9))
    × (stored_cache.latest_ledger_seq ≡ 9)
unfolding upsert_ledger_entry delete_ledger_entry maybe_flush flush commit_write_tx
get_latest_ledger_sequence-commit_example =
    get_latest_ledger_sequence-commit engine encoding in_turn pending_order session engine-IsSql
      session-IsTxSession 9 5 written new_db_cache stored_cache stored none ((57 ∷ []) ∷ [])
      (omega arith) refl refl

commit_write_tx-IsCoherent_example : IsCoherent encoding stored.entries stored_cache.ledger_entries
unfolding upsert_ledger_entry delete_ledger_entry maybe_flush flush commit_write_tx
commit_write_tx-IsCoherent_example =
    commit_write_tx-IsCoherent engine encoding in_turn pending_order session engine-IsSql
      encoding-IsXdr session-IsTxSession (λ b u. (u, λ k. refl))
      (λ c. (pending_order-Unique c, pending_order-lookup c)) empty_db stored 2 9 5 calls written
      new_db_cache stored_cache none (λ k v h. cc h) refl (omega arith) refl

-- A cache that holds one of two config settings, and one that holds none.
abbrev two_settings : Tables ℕ
two_settings = record empty_db {
  entries =
      assign (assign empty_db.entries (8 ∷ []) (some (80 ∷ []))) (8 ∷ 1 ∷ []) (some (81 ∷ []));
}

abbrev one_cached : DbCache
one_cached = record new_db_cache { ledger_entries = assign (λ k. none) (8 ∷ []) (some (80 ∷ [])) }

abbrev asked : List (List ℕ)
asked = (8 ∷ []) ∷ (8 ∷ 1 ∷ []) ∷ (7 ∷ []) ∷ []

abbrev scan_of : RawRead ℕ → RawScan
scan_of (returned t) = t
scan_of _ = record {
  found = λ k. none;
  read_cache = none;
  global_cache = new_db_cache;
  locked = false;
}

abbrev with_cache : RawScan
unfolding get_raw_ledger_entries new_cached_tx new_read_tx
with_cache = scan_of (
    get_raw_ledger_entries engine encoding (new_cached_tx two_settings one_cached) one_cached asked)

abbrev without_cache : RawScan
unfolding get_raw_ledger_entries
without_cache =
    scan_of
      (get_raw_ledger_entries engine encoding (new_tx two_settings one_cached) one_cached asked)

one_cached-IsCoherent : IsCoherent encoding two_settings.entries one_cached.ledger_entries
one_cached-IsCoherent k v h = elim (Bool-cases (same_key (8 ∷ []) k)) [
  | inl hit ↦
      let value : some (80 ∷ []) ≡ some v = rw hit at h in
      subst (λ j. (two_settings.entries j ≡ some v) × (encoding.key_is_config j ≡ ok true))
        (same_key-eq (8 ∷ []) k hit) (value, refl)
  | inr miss ↦ cc (rw miss at h)
]

get_raw_ledger_entries-found_example :
    ((k : List ℕ)
      → (with_cache.found k ≡ (if contains asked k then two_settings.entries k else none))
        × (without_cache.found k ≡ with_cache.found k))
    × IsCoherent encoding two_settings.entries with_cache.global_cache.ledger_entries
unfolding get_raw_ledger_entries new_cached_tx new_read_tx
get_raw_ledger_entries-found_example =
    get_raw_ledger_entries-found engine encoding engine-IsSql two_settings one_cached asked
      with_cache without_cache one_cached-IsCoherent refl refl

abbrev two_rows : List (List ℕ × List ℕ)
two_rows = (8 ∷ [], 80 ∷ []) ∷ (8 ∷ 1 ∷ [], 81 ∷ []) ∷ []

get_raw_ledger_entries-blocked_example :
    (2 ≤ config_rows engine encoding two_rows
      → get_raw_ledger_entries engine encoding
          (new_cached_tx two_settings new_db_cache)
          new_db_cache
          asked
        ≡ blocked)
    × (config_rows engine encoding two_rows ≤ 1
        → (t : RawScan) × (get_raw_ledger_entries engine encoding
              (new_cached_tx two_settings new_db_cache)
              new_db_cache
              asked
            ≡ returned t))
unfolding new_cached_tx new_read_tx
get_raw_ledger_entries-blocked_example =
    get_raw_ledger_entries-blocked engine encoding (new_cached_tx two_settings new_db_cache)
      new_db_cache (λ k. none) asked (8 ∷ []) ((8 ∷ 1 ∷ []) ∷ (7 ∷ []) ∷ []) two_rows refl refl refl
      ((true, refl), ((true, refl), tt))
