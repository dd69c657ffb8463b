-- ===== src/Tests/EntryRuns.antt =====
-- The entry of a contract with its TTL, a config setting, and a key that has no entry.
use soroban_rpc.Common.{
  ℕ, ◌≡◌, refl, subst, inl, inr, Bool-cases, Bool, true, false, Option, none, some, List, [], ◌∷◌,
  ◌==◌, ok,
}
use soroban_rpc.Db.Cache.{assign, new_read_tx, same_key}
use soroban_rpc.Db.Cache.Lookup.{same_key-eq}
use soroban_rpc.Db.Sql.{Tables}
use soroban_rpc.Db.Meta.{DbCache, new_db_cache}
use soroban_rpc.Db.Commit.Coherent.{IsCoherent}
use soroban_rpc.Db.Reader.{
  RawScan, RawRead, returned, new_cached_tx, new_tx, get_raw_ledger_entries,
}
use soroban_rpc.Db.Reader.Entries.{
  TtlXdr, LedgerKeyAndEntry, KeyToEncoded, answered, encoded_keys, get_ledger_entries,
}
use soroban_rpc.Db.Reader.Table.{get_ledger_entries-results}
use soroban_rpc.Tests.Engine.{engine, engine-IsSql, encoding}

abbrev is_contract : List ℕ → Bool
is_contract [] = false
is_contract (b ∷ bs) = b == 6

abbrev first_byte : List ℕ → Option ℕ
first_byte [] = none
first_byte (b ∷ bs) = some b

abbrev ttl : TtlXdr (List ℕ) (List ℕ × List ℕ) ℕ
ttl = record {
  is_contract_data = is_contract;
  is_contract_code = λ k. false;
  marshal_key = λ k. ok k;
  sha256 = λ bytes. bytes;
  set_ttl = λ bytes. ok (9 ∷ bytes);
  live_until_ledger_seq = λ e. first_byte e.1;
}

abbrev database : Tables ℕ
database = record {
  entries =
      assign (assign (assign (λ k. none) (6 ∷ []) (some (60 ∷ []))) (9 ∷ 6 ∷ []) (some (33 ∷ [])))
        (8 ∷ []) (some (80 ∷ []));
  meta = λ k. none;
  ledgers = λ n. none;
  transactions = λ k. none;
}

abbrev setting_cached : DbCache
setting_cached = record new_db_cache {
  ledger_entries = assign (λ k. none) (8 ∷ []) (some (80 ∷ []));
}

setting_cached-IsCoherent : IsCoherent encoding database.entries setting_cached.ledger_entries
setting_cached-IsCoherent k v h = elim (Bool-cases (same_key (8 ∷ []) k)) [
  | inl hit ↦
      let value : some (80 ∷ []) ≡ some v = rw hit at h in
      subst (λ j. (database.entries j ≡ some v) × (encoding.key_is_config j ≡ ok true))
        (same_key-eq (8 ∷ []) k hit) (value, refl)
  | inr miss ↦ cc (rw miss at h)
]

abbrev asked : List (List ℕ)
asked = (8 ∷ []) ∷ (6 ∷ []) ∷ (5 ∷ []) ∷ []

abbrev encoded : List (KeyToEncoded (List ℕ))
encoded =
    record { plain_key = 8 ∷ []; encoded_key = 8 ∷ []; encoded_ttl_key = none }
    ∷ record { plain_key = 6 ∷ []; encoded_key = 6 ∷ []; encoded_ttl_key = some (9 ∷ 6 ∷ []) }
    ∷ record { plain_key = 5 ∷ []; encoded_key = 5 ∷ []; encoded_ttl_key = none }
    ∷ []

abbrev scan_of : RawRead ℕ → RawScan
scan_of (returned t) = t
scan_of _ = record {
  found = λ k. none;
  read_cache = none;
  global_cache = new_db_cache;
  locked = false;
}

abbrev with_cache : RawScan
unfolding get_raw_ledger_entries new_cached_tx new_read_tx
with_cache = scan_of (
    get_raw_ledger_entries engine encoding (new_cached_tx database setting_cached) setting_cached
      (encoded_keys encoding ttl encoded))

abbrev without_cache : RawScan
unfolding get_raw_ledger_entries
without_cache = scan_of (
    get_raw_ledger_entries engine encoding (new_tx database setting_cached) setting_cached
      (encoded_keys encoding ttl encoded))

-- The answer has the two entries that there are.
abbrev found_two : List (LedgerKeyAndEntry (List ℕ) (List ℕ × List ℕ))
found_two =
    record { key = 8 ∷ []; entry = ([], 80 ∷ []); live_until = none }
    ∷ record { key = 6 ∷ []; entry = ([], 60 ∷ []); live_until = some 33 }
    ∷ []

get_ledger_entries-results_example :
    (get_ledger_entries encoding ttl engine
        (new_cached_tx database setting_cached)
        setting_cached
        asked
      ≡ answered (ok found_two))
    × (get_ledger_entries encoding ttl engine (new_tx database setting_cached) setting_cached asked
        ≡ answered (ok found_two))
unfolding get_raw_ledger_entries new_cached_tx new_read_tx
get_ledger_entries-results_example =
    get_ledger_entries-results encoding ttl engine engine-IsSql database setting_cached asked
      encoded with_cache without_cache setting_cached-IsCoherent refl refl refl
