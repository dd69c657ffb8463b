-- ===== src/Db/Writer/Writes.antt =====
-- Any upserts and deletes of a new writer of ledger entries, and a flush behind them.
use soroban_rpc.Common.{
  ℕ, ◌≡◌, refl, ap, subst, ◌∙◌, inl, inr, Option, none, some, List, [], ◌∷◌, if◌then◌else◌,
  Bool-cases, Option-cases, ok, ok-injective, ◌>>=◌, >>=-eq-ok,
}
use soroban_rpc.Db.Cache.{same_key}
use soroban_rpc.Db.Cache.Lookup.{lookup}
use soroban_rpc.Db.Sql.{Sql, IsSql}
use soroban_rpc.Db.Xdr.{Xdr, IsXdr}
use soroban_rpc.Db.Writer.{
  Batch, EntryWriter, new_entry_writer, enter, flush, maybe_flush, upsert_ledger_entry,
  delete_ledger_entry,
}
use soroban_rpc.Db.Writer.Calls.{
  EntryWrite, upserted, deleted, ledger_inserted, transactions_inserted, key_of, update_of,
  last_write, write_one, write_all,
}
use soroban_rpc.Db.Writer.Flush.{IsWritten, row, IsOrder, flush_writes}
use soroban_rpc.Db.Writer.Tracks.{
  Tracks, new_entry_writer-Tracks, flush-Tracks, enter-Tracks, maybe_flush-Tracks, moved-Tracks,
  Tracks-ext,
}
use soroban_rpc.Db.Writer.Track.{IsSynced, settle_tracked}

module _ {S K E X L : Type 0} (q : Sql S X L) (x : Xdr K E X) (order : Batch E → Batch E) where
  module _ (ql : IsSql q) (fair : IsOrder order) where
    -- The last updates after a call, and after some.
    abbrev after :
        List (EntryWrite K E L) → (List ℕ → Option (Option E)) → List ℕ → Option (Option E)
    after cs last k = elim (last_write x cs k) [ some v ↦ some v | none ↦ last k ]

    entered-Tracks :
        (last : List ℕ → Option (Option E)) (before : List ℕ → Option (List ℕ))
        (w : EntryWriter S E) (c : EntryWrite K E L) (key : List ℕ)
        → key_of x c ≡ ok key
        → Tracks q x order (λ k. if same_key key k then some (update_of x c) else last k) before w
        → Tracks q x order (after (c ∷ []) last) before w
    entered-Tracks last before w c key coded t =
        Tracks-ext q x order ql fair (λ k. if same_key key k then some (update_of x c) else last k)
          (after (c ∷ []) last) before w
          (λ k. elim (Bool-cases (same_key key k)) [
            | inl m ↦ rw (after, coded, m) refl
            | inr m ↦ rw (after, coded, m) refl
          ])
          t

    write_one-Tracks :
        (xl : IsXdr x) (last : List ℕ → Option (Option E)) (before : List ℕ → Option (List ℕ))
        (w u : EntryWriter S E) (c : EntryWrite K E L)
        → write_one q x order w c ≡ ok u
        → Tracks q x order last before w
        → Tracks q x order (after (c ∷ []) last) before u
    unfolding upsert_ledger_entry delete_ledger_entry
    write_one-Tracks xl last before w u (upserted e) h t =
        let (k, named, h₁) =
          >>=-eq-ok (x.entry_key e)
            (λ k. x.encode_key k >>= (λ key. maybe_flush q x order (enter key (some e) w))) h in
        let (key, coded, h₂) =
          >>=-eq-ok (x.encode_key k) (λ key. maybe_flush q x order (enter key (some e) w)) h₁ in
        maybe_flush-Tracks q x order ql fair (after (upserted e ∷ []) last) before
          (enter key (some e) w) u h₂
          (entered-Tracks last before (enter key (some e) w) (upserted e) key
            (ap (λ r. r >>= (λ k. x.encode_key k)) named ∙ coded)
            (enter-Tracks q x order ql fair last before w key (some e)
              (λ f m.
                xl.same_type e k key named coded
                ∙ (let same : e ≡ f = cc m in ap (λ y. ok (x.is_config y)) same))
              t))
    write_one-Tracks xl last before w u (deleted k) h t =
        let (key, coded, h₂) =
          >>=-eq-ok (x.encode_key k) (λ key. maybe_flush q x order (enter key none w)) h in
        maybe_flush-Tracks q x order ql fair (after (deleted k ∷ []) last) before (enter key none w)
          u h₂
          (entered-Tracks last before (enter key none w) (deleted k) key coded
            (enter-Tracks q x order ql fair last before w key none (λ f m. cc) t))
    write_one-Tracks xl last before w u (ledger_inserted n l) h t =
        let (v, done, h₁) =
          >>=-eq-ok (q.insert_ledger w.table n l) (λ v. ok (record w { table = v })) h in
        subst (Tracks q x order last before) (ok-injective h₁) (
          moved-Tracks q x order ql fair last before w v
            (ap (λ u. u.entries) (ql.inserts_ledger w.table v n l done)) t)
    write_one-Tracks xl last before w u (transactions_inserted rows) h t =
        let (v, done, h₁) =
          >>=-eq-ok (q.insert_transactions w.table rows) (λ v. ok (record w { table = v })) h in
        subst (Tracks q x order last before) (ok-injective h₁) (
          moved-Tracks q x order ql fair last before w v
            (ap (λ u. u.entries) (ql.inserts_transactions w.table v rows done)) t)

    write_all-Tracks :
        (xl : IsXdr x) (last : List ℕ → Option (Option E)) (before : List ℕ → Option (List ℕ))
        (w u : EntryWriter S E) (cs : List (EntryWrite K E L))
        → write_all q x order w cs ≡ ok u
        → Tracks q x order last before w
        → Tracks q x order (after cs last) before u
    write_all-Tracks xl last before w u [] h t =
        subst (Tracks q x order last before) (ok-injective h) t
    write_all-Tracks xl last before w u (c ∷ cs) h t =
        let (v, one, rest) =
          >>=-eq-ok (write_one q x order w c) (λ v. write_all q x order v cs) h in
        Tracks-ext q x order ql fair (after cs (after (c ∷ []) last)) (after (c ∷ cs) last) before u
          (λ k. elim (Option-cases (last_write x cs k)) [
            | inl m ↦ rw (after, m) refl
            | inr m ↦ rw (after, m.1) refl
          ])
          (write_all-Tracks xl (after (c ∷ []) last) before v u cs rest
            (write_one-Tracks xl last before w v c one t))

    flushed-Tracks :
        (xl : IsXdr x) (s : S) (size : ℕ) (cs : List (EntryWrite K E L)) (w u : EntryWriter S E)
        → write_all q x order (new_entry_writer s size) cs ≡ ok w
        → flush q x order w ≡ ok u
        → Tracks q x order (after cs (λ k. none)) (q.tables s).entries u
    flushed-Tracks xl s size cs w u written flushed =
        flush-Tracks q x order ql fair (after cs (λ k. none)) (q.tables s).entries w u flushed (
          write_all-Tracks xl (λ k. none) (q.tables s).entries (new_entry_writer s size) w cs
            written (new_entry_writer-Tracks q x order s size))

    -- The pending updates of the cache agree with the table.
    pub flush-IsSynced :
        (xl : IsXdr x) (s : S) (size : ℕ) (cs : List (EntryWrite K E L)) (w u : EntryWriter S E)
        → write_all q x order (new_entry_writer s size) cs ≡ ok w
        → flush q x order w ≡ ok u
        → (k : List ℕ) → IsSynced x k (lookup u.cache_tx k) ((q.tables s).entries k) (row q u k)
    flush-IsSynced xl s size cs w u written flushed =
        (flushed-Tracks xl s size cs w u written flushed).synced

    -- After any calls of a new writer and a flush, all of which succeed, however often the batch was flushed on the way and
    -- in whatever order its keys are met, each row is what the last upsert of its key encodes to,
    -- missing if the last call deleted it, and as it was before if no call named it.
    pub flush-write_all :
        (xl : IsXdr x) (s : S) (size : ℕ) (calls : List (EntryWrite K E L)) (w u : EntryWriter S E)
        → write_all q x order (new_entry_writer s size) calls ≡ ok w
        → flush q x order w ≡ ok u
        → (k : List ℕ) → IsWritten x (last_write x calls k) ((q.tables s).entries k) (row q u k)
    flush-write_all xl s size calls w u written flushed k =
        let t =
          write_all-Tracks xl (λ k. none) (q.tables s).entries (new_entry_writer s size) w calls
            written (new_entry_writer-Tracks q x order s size) in
        let settled =
          settle_tracked x (lookup w.key_to_entry_batch k) (after calls (λ k. none) k)
            ((q.tables s).entries k) (row q w k) (row q u k) (t.tracked k)
            ((flush_writes q ql x order fair w u t.unique flushed).1 k).0 in
        subst (λ o. IsWritten x o ((q.tables s).entries k) (row q u k))
          (elim (Option-cases (last_write x calls k)) [
            | inl m ↦ rw (after, m) refl
            | inr m ↦ rw (after, m.1) refl
          ])
          settled
