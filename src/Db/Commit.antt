-- ===== src/Db/Commit.antt =====
-- writeTx of internal/db/db.go: the commit of a write transaction.
pub mod Prepared
pub mod Retained
pub mod Coherent
use soroban_rpc.Common.{
  ℕ, Bool, Option, none, some, List, Outcome, ok, err, panic, ◌>>=◌, format_uint, if◌then◌else◌,
}
use soroban_rpc.Db.Cache.{CacheWriteTx, commit}
use soroban_rpc.Db.Sql.{Sql}
use soroban_rpc.Db.Xdr.{Xdr}
use soroban_rpc.Db.Writer.{Batch, EntryWriter, flush}
use soroban_rpc.Db.Ledgers.{trim_ledgers, trim_transactions}
use soroban_rpc.Db.Meta.{DbCache, latest_ledger_sequence_meta_key}

-- What Commit comes to: the transaction is committed and the cache updated, with the error of the
-- checkpoint behind it if there is one, or it is not, and the cache is as it was.
pub data Committed (S X : Type 0) : Type 0 where
  committed : S → DbCache → Option X → Committed S X
  uncommitted : X → Committed S X
  commit_panicked : Committed S X

-- The session of a write transaction: its commit, and the checkpoint that runs behind it, which is not
-- part of the transaction.
pub record TxSession (S X : Type 0) : Type 0 where
  pub commit_tx : S → Outcome X S
  pub rollback_tx : S → Option X
  pub post_commit : S → Option X
  -- whether an error reads "not in transaction"
  pub is_not_in_transaction : X → Bool

module _ {S K E X L : Type 0} (q : Sql S X L) (x : Xdr K E X) (order : Batch E → Batch E)
    (update_order : CacheWriteTx → CacheWriteTx) (session : TxSession S X) where
  -- the statements of Commit in front of that of the session
  unfoldable pub prepare : ℕ → ℕ → EntryWriter S E → Outcome X (EntryWriter S E)
  unfolding flush trim_ledgers trim_transactions
  prepare seq window w = flush q x order w >>= (λ v. trim_ledgers q seq window v.table >>= (λ s.
      trim_transactions q seq window s >>= (λ t.
        q.replace_meta t latest_ledger_sequence_meta_key (format_uint seq)
        >>= (λ u. ok (record v { table = u })))))

  -- commitAndUpdateCache
  abbrev pub updated_cache : ℕ → EntryWriter S E → DbCache → DbCache
  updated_cache seq w cache = record {
    latest_ledger_seq = seq;
    ledger_entries = commit (update_order w.cache_tx) cache.ledger_entries;
  }

  abbrev pub with_commit : ℕ → DbCache → EntryWriter S E → Outcome X S → Committed S X
  with_commit seq cache w (ok s) = committed s (updated_cache seq w cache) (session.post_commit s)
  with_commit seq cache w (err e) = uncommitted e
  with_commit seq cache w panic = commit_panicked

  abbrev pub finish : ℕ → DbCache → Outcome X (EntryWriter S E) → Committed S X
  finish seq cache panic = commit_panicked
  finish seq cache (err e) = uncommitted e
  finish seq cache (ok w) = with_commit seq cache w (session.commit_tx w.table)

  -- Commit, for a retention window
  unfoldable pub commit_write_tx : ℕ → ℕ → EntryWriter S E → DbCache → Committed S X
  unfolding prepare
  commit_write_tx seq window w cache = finish seq cache (prepare seq window w)

-- Rollback, which forgives one error.
abbrev pub rollback : {S X : Type 0} → TxSession S X → S → Option X
rollback session s = elim (session.rollback_tx s) [
  | none ↦ none
  | some e ↦ if session.is_not_in_transaction e then none else some e
]
