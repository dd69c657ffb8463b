-- ===== src/Tests.antt =====
-- Runs of the theorems on small inputs.
mod WindowRuns
mod EventRuns
mod FeeRuns
mod PageRuns
mod MigrationRuns
mod Engine
mod CacheRuns
mod DurationRuns
mod DatabaseRuns
mod LookupRuns
mod EntryRuns
mod CursorRuns
mod TransactionRuns
mod LimiterRuns
