-- ===== src/Db/Commit/Coherent.antt =====
-- The cache of ledger entries after a commit.
use soroban_rpc.Common.{
  ℕ, ◌≡◌, ◌+◌, ◌^◌, ◌<◌, sym, ap, ◌∙◌, inl, inr, true, Option, none, some, List, ok,
}
use soroban_rpc.Db.Cache.{CacheWriteTx, TransactionalCache, GoMap}
use soroban_rpc.Db.Cache.Lookup.{lookup, Unique}
use soroban_rpc.Db.Cache.Isolation.{commit-updated, updated}
use soroban_rpc.Db.Sql.{Sql, IsSql}
use soroban_rpc.Db.Xdr.{Xdr, IsXdr}
use soroban_rpc.Db.Writer.{Batch, EntryWriter, new_entry_writer}
use soroban_rpc.Db.Writer.Calls.{EntryWrite, write_all}
use soroban_rpc.Db.Writer.Flush.{IsOrder, row}
use soroban_rpc.Db.Writer.Track.{IsSynced}
use soroban_rpc.Db.Writer.Writes.{flush-IsSynced}
use soroban_rpc.Db.Meta.{DbCache}
use soroban_rpc.Db.Commit.{committed, TxSession, commit_write_tx}
use soroban_rpc.Db.Commit.Prepared.{IsTxSession}
use soroban_rpc.Db.Commit.Retained.{committed_steps}

-- The cache holds rows of the table, of config settings only.
abbrev pub IsCoherent : {K E X : Type 0} → Xdr K E X → GoMap (List ℕ) → TransactionalCache → Type 0
IsCoherent x rows cache =
    (k : List ℕ) (v : List ℕ) → cache k ≡ some v → (rows k ≡ some v) × (x.key_is_config k ≡ ok true)

module _ {K E X : Type 0} (x : Xdr K E X) where
  synced-coherent :
      (k v : List ℕ) (pending : Option (Option (List ℕ))) (old before now : Option (List ℕ))
      → IsSynced x k pending before now
      → (old ≡ some v → (before ≡ some v) × (x.key_is_config k ≡ ok true))
      → updated old pending ≡ some v
      → (now ≡ some v) × (x.key_is_config k ≡ ok true)
  synced-coherent k v none old before now (inl kept) coherent e =
      let (r, config) = coherent e in (kept ∙ r, config)
  synced-coherent k v none old before now (inr plain) coherent e =
      let (r, config) = coherent e in cc (plain, config)
  synced-coherent k v (some none) old before now s coherent e = cc e
  synced-coherent k v (some (some b)) old before now s coherent e = (s.0 ∙ e, s.1)

-- A cache that holds only rows of the database, all of config settings, does so after any calls of a
-- write transaction and its commit for a ledger below the last uint32, where they succeed, however
-- often the writer flushed on the way.
pub commit_write_tx-IsCoherent :
    {S K E X L : Type 0} (q : Sql S X L) (x : Xdr K E X) (order : Batch E → Batch E)
    (update_order : CacheWriteTx → CacheWriteTx) (session : TxSession S X) (ql : IsSql q)
    (xl : IsXdr x) (sl : IsTxSession q session) (fair : IsOrder order)
    → ((c : CacheWriteTx)
        → Unique (update_order c) × ((k : List ℕ) → lookup (update_order c) k ≡ lookup c k))
    → (begun s : S) (size seq window : ℕ) (calls : List (EntryWrite K E L)) (w : EntryWriter S E)
      (cache cache' : DbCache) (e : Option X)
    → IsCoherent x (q.tables begun).entries cache.ledger_entries
    → write_all q x order (new_entry_writer begun size) calls ≡ ok w
    → seq + 1 < 2 ^ 32
    → commit_write_tx q x order update_order session seq window w cache ≡ committed s cache' e
    → IsCoherent x (q.tables s).entries cache'.ledger_entries
commit_write_tx-IsCoherent {S} {K} {E} {X} {L} q x order update_order session ql xl sl fair
      fair_updates begun s size seq window calls w cache cache' e coherent written small h k v
      held =
    let (u, flushed, tables, cached) =
      committed_steps q x order update_order session ql sl seq window w cache cache' s e small h in
    let (unique, same) = fair_updates u.cache_tx in
    let synced = flush-IsSynced q x order ql fair xl begun size calls w u written flushed k in
    let (found, config) =
      synced-coherent x k v (lookup u.cache_tx k) (cache.ledger_entries k)
        ((q.tables begun).entries k) (row q u k) synced (coherent k v)
        (sym (
            commit-updated (update_order u.cache_tx) cache.ledger_entries k unique
            ∙ ap (updated (cache.ledger_entries k)) (same k))
          ∙ ap (λ c. c.ledger_entries k) (sym cached)
          ∙ held) in
    (ap (λ T. T.entries k) tables ∙ found, config)
