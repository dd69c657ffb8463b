-- ===== src/Tests/CacheRuns.antt =====
-- A key written twice, and one deleted, over a cache that holds both.
use soroban_rpc.Common.{◌≡◌, refl, none, some, List, [], ◌∷◌}
use soroban_rpc.Db.Cache.{TransactionalCache, CacheWriteTx, commit, assign, new_transactional_cache}
use soroban_rpc.Db.Cache.Isolation.{Write, upserted, deleted, last_write, updated, commit-write_all}

abbrev parent : TransactionalCache
parent = assign (assign new_transactional_cache (1 ∷ []) (some (10 ∷ []))) (2 ∷ []) (some (20 ∷ []))

abbrev writes : List Write
writes = upserted (1 ∷ []) (11 ∷ []) ∷ deleted (2 ∷ []) ∷ upserted (1 ∷ []) (12 ∷ []) ∷ []

abbrev order : CacheWriteTx
order = (1 ∷ [], some (12 ∷ [])) ∷ (2 ∷ [], none) ∷ []

commit-write_all_example :
    commit order parent (1 ∷ []) ≡ updated (parent (1 ∷ [])) (last_write writes (1 ∷ []))
commit-write_all_example =
    commit-write_all writes order parent (1 ∷ []) (refl, (refl, tt)) (λ j. refl)
