-- ===== src/Db/Migration.antt =====
-- internal/db/migration.go: data migrations, each applied to a range of ledgers. The session of the
-- database and the migration itself are the functions of a record; a joined error is a list.
pub mod Hull
pub mod Apply
use soroban_rpc.Common.{
  ℕ, min, max, Bool, true, false, Option, none, some, List, [], ◌∷◌, ◌++◌, leb, ◌&&◌, if◌then◌else◌,
}

-- LedgerSeqRange; nil, the empty range, is `none`.
pub record LedgerSeqRange : Type 0 where
  pub first_ledger_seq : ℕ
  pub last_ledger_seq : ℕ

-- IsLedgerIncluded
abbrev pub is_ledger_included : Option LedgerSeqRange → ℕ → Bool
is_ledger_included none seq = false
is_ledger_included (some r) seq = leb r.first_ledger_seq seq && leb seq r.last_ledger_seq

-- Merge
abbrev pub merge : Option LedgerSeqRange → Option LedgerSeqRange → Option LedgerSeqRange
merge none other = other
merge (some r) none = some r
merge (some r) (some other) = some (record {
  first_ledger_seq = min r.first_ledger_seq other.first_ledger_seq;
  last_ledger_seq = max r.last_ledger_seq other.last_ledger_seq;
})

-- What getMetaBool and GetLatestLedgerSequence answer: ErrEmptyDB is told apart from other errors.
pub data ReadMeta (E A : Type 0) : Type 0 where
  value : A → ReadMeta E A
  empty_db : ReadMeta E A
  failed : E → ReadMeta E A

-- A session of the database and the migration that runs in it. `A` is the state of the migration.
pub record Session (D A Meta E : Type 0) : Type 0 where
  pub begin : D → D × Option E
  pub get_meta_bool : D → ReadMeta E Bool
  pub get_latest_ledger : D → ReadMeta E ℕ
  pub set_meta_bool : D → D × Option E
  pub commit_db : D → D × Option E
  pub rollback_db : D → D × Option E
  -- migrationApplierFactory.New, MigrationApplier.ApplicableRange and Apply
  pub make_applier : D → ℕ → D × (A × Option E)
  pub applier_range : A → Option LedgerSeqRange
  pub applier_apply : D × A → Meta → (D × A) × Option E
  pub ledger_sequence_of : Meta → ℕ

-- guardedMigration
pub record GuardedMigration (D A : Type 0) : Type 0 where
  pub session : D
  pub migration : A
  pub already_migrated : Bool

abbrev pub errors_of : {E : Type 0} → Option E → List E
errors_of none = []
errors_of (some e) = e ∷ []

module _ {D A Meta E : Type 0} (s : Session D A Meta E) where
  -- guardedMigration.ApplicableRange
  abbrev pub guarded_range : GuardedMigration D A → Option LedgerSeqRange
  guarded_range g = if g.already_migrated then none else s.applier_range g.migration

  -- guardedMigration.Apply
  abbrev pub guarded_apply : GuardedMigration D A → Meta → GuardedMigration D A × List E
  guarded_apply g meta =
      if g.already_migrated
      then (g, [])
      else (let ((d, a), e) = s.applier_apply (g.session, g.migration) meta in
          (record g { session = d; migration = a }, errors_of e))

  -- guardedMigration.Rollback
  abbrev pub guarded_rollback : GuardedMigration D A → GuardedMigration D A × List E
  guarded_rollback g =
      let (d, e) = s.rollback_db g.session in (record g { session = d }, errors_of e)

  -- guardedMigration.Commit behind the write of the guard.
  abbrev pub commit_written : GuardedMigration D A → D × Option E → GuardedMigration D A × List E
  commit_written g (d, none) =
      let (d', e) = s.commit_db d in (record g { session = d' }, errors_of e)
  commit_written g (d, some e) =
      let (g', es) = guarded_rollback (record g { session = d }) in (g', e ∷ es)

  -- guardedMigration.Commit
  abbrev pub guarded_commit : GuardedMigration D A → GuardedMigration D A × List E
  guarded_commit g =
      if g.already_migrated then (g, []) else commit_written g (s.set_meta_bool g.session)

  -- newGuardedDataMigration: the session afterwards, and the migration or the errors.
  pub data Built : Type 0 where
    built : GuardedMigration D A → Built
    not_built : List E → Built

  abbrev pub give_up : D → E → D × Built
  give_up d e = let (d', r) = s.rollback_db d in (d', not_built (e ∷ errors_of r))

  abbrev pub with_applier : Bool → D × (A × Option E) → D × Built
  with_applier done (d, (a, none)) =
      (d, built (record { session = d; migration = a; already_migrated = done }))
  with_applier done (d, (a, some e)) = give_up d e

  abbrev pub with_latest : Bool → D → ReadMeta E ℕ → D × Built
  with_latest done d (value n) = with_applier done (s.make_applier d n)
  with_latest done d empty_db = with_applier done (s.make_applier d 0)
  with_latest done d (failed e) = give_up d e

  abbrev pub with_guard : D → ReadMeta E Bool → D × Built
  with_guard d (value done) = with_latest done d (s.get_latest_ledger d)
  with_guard d empty_db = with_latest false d (s.get_latest_ledger d)
  with_guard d (failed e) = give_up d e

  abbrev pub with_begun : D × Option E → D × Built
  with_begun (d, some e) = (d, not_built (e ∷ []))
  with_begun (d, none) = with_guard d (s.get_meta_bool d)

  abbrev pub new_guarded_data_migration : D → D × Built
  new_guarded_data_migration d = with_begun (s.begin d)

  -- multiMigration.ApplicableRange, `result` so far.
  abbrev pub range_loop :
      List (GuardedMigration D A) → Option LedgerSeqRange → Option LedgerSeqRange
  range_loop [] result = result
  range_loop (g ∷ gs) result = range_loop gs (merge (guarded_range g) result)

  abbrev pub multi_range : List (GuardedMigration D A) → Option LedgerSeqRange
  multi_range gs = range_loop gs none

  -- multiMigration.Apply, with the joined errors so far.
  abbrev pub multi_apply : List (GuardedMigration D A) → Meta → List (GuardedMigration D A) × List E
  multi_apply [] meta = ([], [])
  multi_apply (g ∷ gs) meta =
      let (gs', es) = multi_apply gs meta in
      if is_ledger_included (guarded_range g) (s.ledger_sequence_of meta)
      then (let (g', e) = guarded_apply g meta in (g' ∷ gs', e ++ es))
      else (g ∷ gs', es)

  -- multiMigration.Commit and Rollback
  abbrev pub multi_commit : List (GuardedMigration D A) → List (GuardedMigration D A) × List E
  multi_commit [] = ([], [])
  multi_commit (g ∷ gs) =
      let (gs', es) = multi_commit gs in let (g', e) = guarded_commit g in (g' ∷ gs', e ++ es)

  abbrev pub multi_rollback : List (GuardedMigration D A) → List (GuardedMigration D A) × List E
  multi_rollback [] = ([], [])
  multi_rollback (g ∷ gs) =
      let (gs', es) = multi_rollback gs in let (g', e) = guarded_rollback g in (g' ∷ gs', e ++ es)
