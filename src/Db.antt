-- ===== src/Db.antt =====
-- internal/db: the database.
pub mod Migration
pub mod Cache
pub mod Sql
pub mod Xdr
pub mod Writer
pub mod Meta
pub mod Reader
pub mod Ledgers
pub mod Transactions
pub mod Commit
