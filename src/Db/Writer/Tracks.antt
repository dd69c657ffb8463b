-- ===== src/Db/Writer/Tracks.antt =====
-- What a writer keeps true of its updates, through a flush or the entry of another.
use soroban_rpc.Common.{
  ℕ, ◌≡◌, refl, subst, inl, inr, Option, none, some, List, leb, length, if◌then◌else◌, fun_ext,
  Bool-cases, ok, ok-injective,
}
use soroban_rpc.Db.Cache.{same_key}
use soroban_rpc.Db.Cache.Lookup.{lookup, Unique, put-lookup, put-Unique, same_key-eq}
use soroban_rpc.Db.Sql.{Sql, IsSql}
use soroban_rpc.Db.Xdr.{Xdr}
use soroban_rpc.Db.Writer.{Batch, EntryWriter, new_entry_writer, enter, flush, maybe_flush}
use soroban_rpc.Db.Writer.Flush.{row, IsOrder, flush_writes}
use soroban_rpc.Db.Writer.Track.{IsTracked, IsSynced, settle_tracked, sync_pending}

module _ {S K E X L : Type 0} (q : Sql S X L) (x : Xdr K E X) (order : Batch E → Batch E) where
  -- What holds of a writer whose last updates are `last`, over the table as it was `before`.
  pub record Tracks (last : List ℕ → Option (Option E)) (before : List ℕ → Option (List ℕ))
      (w : EntryWriter S E) : Type 0 where
    pub unique : Unique w.key_to_entry_batch
    pub tracked :
        (k : List ℕ) → IsTracked x (lookup w.key_to_entry_batch k) (last k) (before k) (row q w k)
    pub typed :
        (k : List ℕ) (e : E)
        → lookup w.key_to_entry_batch k ≡ some (some e)
        → x.key_is_config k ≡ ok (x.is_config e)
    pub synced : (k : List ℕ) → IsSynced x k (lookup w.cache_tx k) (before k) (row q w k)

  pub new_entry_writer-Tracks :
      (s : S) (size : ℕ) → Tracks (λ k. none) (q.tables s).entries (new_entry_writer s size)
  new_entry_writer-Tracks s size = record {
    unique = tt;
    tracked = λ k. refl;
    typed = λ k e h. cc;
    synced = λ k. inl refl;
  }

  module _ (ql : IsSql q) (fair : IsOrder order) where
    pub flush-Tracks :
        (last : List ℕ → Option (Option E)) (before : List ℕ → Option (List ℕ))
        (w u : EntryWriter S E)
        → flush q x order w ≡ ok u
        → Tracks last before w
        → Tracks last before u
    flush-Tracks last before w u h t =
        let (emptied, written) = flush_writes q ql x order fair w u t.unique h in
        record {
          unique = rw emptied tt;
          tracked = λ k. rw emptied (
              settle_tracked x (lookup w.key_to_entry_batch k) (last k) (before k) (row q w k)
                (row q u k) (t.tracked k) (written k).0);
          typed = λ k e m. cc (rw emptied at m);
          synced = λ k.
              sync_pending x k (lookup w.key_to_entry_batch k) (lookup w.cache_tx k)
                (lookup u.cache_tx k) (before k) (row q w k) (row q u k) (t.typed k) (t.synced k)
                (written k).0 (written k).1;
        }

    pub enter-Tracks :
        (last : List ℕ → Option (Option E)) (before : List ℕ → Option (List ℕ))
        (w : EntryWriter S E) (key : List ℕ) (v : Option E)
        → ((e : E) → v ≡ some e → x.key_is_config key ≡ ok (x.is_config e))
        → Tracks last before w
        → Tracks (λ k. if same_key key k then some v else last k) before (enter key v w)
    enter-Tracks last before w key v typed t = record {
      unique = put-Unique w.key_to_entry_batch key v t.unique;
      tracked = λ k.
          rw (put-lookup w.key_to_entry_batch key k v)
            (elim (Bool-cases (same_key key k)) [ inl e ↦ rw e refl | inr e ↦ rw e (t.tracked k) ]);
      typed = λ k e m. elim (Bool-cases (same_key key k)) [
        | inl hit ↦
            subst (λ j. x.key_is_config j ≡ ok (x.is_config e)) (same_key-eq key k hit)
              (let held : some v ≡ some (some e) =
                  rw (put-lookup w.key_to_entry_batch key k v, hit) at m in
                typed e cc)
        | inr miss ↦ t.typed k e (rw (put-lookup w.key_to_entry_batch key k v, miss) at m)
      ];
      synced = t.synced;
    }

    pub maybe_flush-Tracks :
        (last : List ℕ → Option (Option E)) (before : List ℕ → Option (List ℕ))
        (w u : EntryWriter S E)
        → maybe_flush q x order w ≡ ok u
        → Tracks last before w
        → Tracks last before u
    unfolding maybe_flush
    maybe_flush-Tracks last before w u h t =
        elim (Bool-cases (leb w.max_batch_size (length w.key_to_entry_batch))) [
          | inl full ↦ flush-Tracks last before w u (rw full at h) t
          | inr room ↦ subst (Tracks last before) (ok-injective (rw room at h)) t
        ]

    pub Tracks-ext :
        (last other : List ℕ → Option (Option E)) (before : List ℕ → Option (List ℕ))
        (w : EntryWriter S E)
        → ((k : List ℕ) → last k ≡ other k)
        → Tracks last before w
        → Tracks other before w
    Tracks-ext last other before w same t = subst (λ f. Tracks f before w) (fun_ext same) t

    -- The other tables do not matter.
    pub moved-Tracks :
        (last : List ℕ → Option (Option E)) (before : List ℕ → Option (List ℕ))
        (w : EntryWriter S E) (t : S)
        → (q.tables t).entries ≡ (q.tables w.table).entries
        → Tracks last before w
        → Tracks last before (record w { table = t })
    moved-Tracks last before w t same tr = record {
      unique = tr.unique;
      tracked = λ k. rw same (tr.tracked k);
      typed = tr.typed;
      synced = λ k. rw same (tr.synced k);
    }
