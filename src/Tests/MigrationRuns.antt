-- ===== src/Tests/MigrationRuns.antt =====
-- Two migrations, one of them done before; and two that were both done.
use soroban_rpc.Common.{ℕ, ◌+◌, Bool, true, false, Option, none, some, List, [], ◌∷◌, arith}
use soroban_rpc.Db.Migration.{LedgerSeqRange, Session, value, GuardedMigration, multi_range}
use soroban_rpc.Db.Migration.Hull.{Within, AllWithin, multi_range-Within}

abbrev session : Session ℕ (Option LedgerSeqRange) ℕ ℕ
session = record {
  begin = λ d. (d, none);
  get_meta_bool = λ d. value false;
  get_latest_ledger = λ d. value 0;
  set_meta_bool = λ d. (d + 1, none);
  commit_db = λ d. (d, none);
  rollback_db = λ d. (d, none);
  make_applier = λ d n. (d, (none, none));
  applier_range = λ a. a;
  applier_apply = λ state meta. ((state.0 + meta, state.1), none);
  ledger_sequence_of = λ meta. meta;
}

abbrev migration : ℕ → ℕ → Bool → GuardedMigration ℕ (Option LedgerSeqRange)
migration low high done = record {
  session = 0;
  migration = some (record { first_ledger_seq = low; last_ledger_seq = high });
  already_migrated = done;
}

abbrev migrations : List (GuardedMigration ℕ (Option LedgerSeqRange))
migrations = migration 5 9 false ∷ migration 2 3 false ∷ migration 20 30 true ∷ []

abbrev done_before : List (GuardedMigration ℕ (Option LedgerSeqRange))
done_before = migration 5 9 true ∷ migration 2 3 true ∷ []

multi_range-Within_example :
    AllWithin session (multi_range session migrations) migrations
    × ((other : Option LedgerSeqRange)
        → AllWithin session other migrations
        → Within (multi_range session migrations) other)
multi_range-Within_example =
    multi_range-Within session migrations (omega arith, (omega arith, (tt, tt)))
