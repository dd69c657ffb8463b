-- ===== src/Events/Store/Kept.antt =====
-- A ledger that arrives keeps the store in good order.
use soroban_rpc.Common.{
  ℕ, suc, ◌+◌, ◌^◌, ◌<◌, ◌≡◌, refl, ap, ◌∙◌, inl, inr, false, some, List, [], ◌∷◌, ◌++◌, ltb, arith,
  Bool-cases, length, length-append, All-append, subst, ok, ◌>>=◌,
}
use soroban_rpc.Window.{LedgerBucket, append, add_u32}
use soroban_rpc.Window.Spec.{contents, expected, slide, From, Contiguous}
use soroban_rpc.Window.Validity.{IsValid}
use soroban_rpc.Window.Invariant.{From-append, append-IsValid}
use soroban_rpc.Window.Run.{append-ok}
use soroban_rpc.Events.Store.{Event, MemoryStore}
use soroban_rpc.Events.Store.Seek.{Ordered}
use soroban_rpc.Events.Store.Sorted.{AllOrdered}
use soroban_rpc.Events.Store.Scan.{IsStore}
use soroban_rpc.Events.Store.Ingest.{
  EventTransaction, EventMeta, read_events, ingest_events, appended,
}
use soroban_rpc.Events.Store.Arrival.{
  ledger_events, AllYield, Rising, reads_of, read_all-eq, ledger_events-Ordered,
}

module _ {Hash : Type 0} where
  -- Consecutive ledgers in order, from one on.
  record InOrder (n : ℕ) (bs : List (LedgerBucket (List (Event Hash)))) : Type 0 where
    consecutive : From n bs
    room : n + length bs < 2 ^ 32
    ordered : AllOrdered bs

  append-InOrder :
      (n : ℕ) (bs : List (LedgerBucket (List (Event Hash)))) (b : LedgerBucket (List (Event Hash)))
      → InOrder n bs
      → Ordered b.bucket_content
      → b.ledger_seq ≡ n + length bs
      → b.ledger_seq + 1 < 2 ^ 32
      → InOrder n (bs ++ (b ∷ []))
  append-InOrder n bs b o k e small = record {
    consecutive = From-append n bs b (omega arith) o.consecutive (omega arith);
    room = omega (arith, length-append bs (b ∷ []));
    ordered = All-append _ bs (b ∷ []) o.ordered (k, tt);
  }

  tail-InOrder :
      (n : ℕ) (x : LedgerBucket (List (Event Hash))) (bs : List (LedgerBucket (List (Event Hash))))
      → InOrder n (x ∷ bs)
      → InOrder (suc n) bs
  tail-InOrder n x bs o =
      let next : add_u32 n 1 ≡ suc n = omega (arith, o.room) in
      record {
        consecutive = subst (λ k. From k bs) next o.consecutive.1;
        room = omega (arith, o.room);
        ordered = o.ordered.1;
      }

  slide-InOrder :
      (cap n : ℕ) (bs : List (LedgerBucket (List (Event Hash))))
      (b : LedgerBucket (List (Event Hash)))
      → InOrder n bs
      → Ordered b.bucket_content
      → expected bs b.ledger_seq ≡ b.ledger_seq
      → b.ledger_seq + 1 < 2 ^ 32
      → (n' : ℕ) × InOrder n' (slide cap bs b).1
  slide-InOrder cap n [] b o k e small =
      let alone : InOrder b.ledger_seq (b ∷ []) = record {
        consecutive = (refl, tt);
        room = omega arith;
        ordered = (k, tt);
      } in
      (
        b.ledger_seq,
        elim (Bool-cases (ltb 0 cap)) [ inl free ↦ rw free alone | inr full ↦ rw full alone ],
      )
  slide-InOrder cap n (x ∷ bs) b o k e small =
      let next : b.ledger_seq ≡ n + suc (length bs) = omega (arith, o.consecutive.0, o.room) in
      elim (Bool-cases (ltb (suc (length bs)) cap)) [
        | inl free ↦ (n, rw free (append-InOrder n (x ∷ bs) b o k next small))
        | inr full ↦ (
          suc n,
          rw full (append-InOrder (suc n) bs b (tail-InOrder n x bs o) k (omega arith) small),
        )
      ]

  From-Contiguous :
      (n : ℕ) (bs : List (LedgerBucket (List (Event Hash))))
      → From n bs
      → n + length bs < 2 ^ 32
      → Contiguous bs
  From-Contiguous n [] f h = tt
  From-Contiguous n (b ∷ bs) f h = (omega (arith, f.0), rw f.0 f.1)

  abbrev pub bucket_of : EventMeta Hash → List (Event Hash) → LedgerBucket (List (Event Hash))
  bucket_of meta events = record {
    ledger_seq = meta.ledger_sequence;
    ledger_close_timestamp = meta.ledger_close_time;
    bucket_content = events;
  }

  read_events-eq :
      (meta : EventMeta Hash) (ps : List (EventTransaction Hash × List (List ℕ)))
      → meta.reader ≡ some (reads_of ps)
      → meta.close_fails ≡ false
      → AllYield ps
      → read_events meta ≡ ok (ledger_events ps)
  unfolding read_events
  read_events-eq meta ps r c y = rw (r, c, read_events) (read_all-eq ps [] y)

  -- The next ledger, read without an error, slides the window over its events: those of its
  -- successful transactions, in order. The store stays in good order, so that `scan_lem` holds of it.
  pub ingest_events-IsStore :
      (m : MemoryStore Hash) (meta : EventMeta Hash)
      (ps : List (EventTransaction Hash × List (List ℕ)))
      → IsStore m
      → meta.reader ≡ some (reads_of ps)
      → meta.close_fails ≡ false
      → AllYield ps
      → Rising ps
      → expected (contents m) meta.ledger_sequence ≡ meta.ledger_sequence
      → meta.ledger_sequence + 1 < 2 ^ 32
      → (m' : MemoryStore Hash) × (ingest_events m meta ≡ ok m')
        × IsStore m'
        × (contents m' ≡ (slide m.cap (contents m) (bucket_of meta (ledger_events ps))).1)
  unfolding ingest_events
  ingest_events-IsStore m meta ps s r c y rising e small =
      let b = bucket_of meta (ledger_events ps) in
      let valid : IsValid m = record {
        shaped = s.shaped;
        contiguous = From-Contiguous s.first (contents m) s.consecutive s.room;
      } in
      let (m', a, k) = append-ok m b s.shaped e in
      let (v, same) = append-IsValid m m' b _ valid (omega arith) a in
      let o : InOrder s.first (contents m) = record {
        consecutive = s.consecutive;
        room = s.room;
        ordered = s.ordered;
      } in
      let (n, o') =
        slide-InOrder m.cap s.first (contents m) b o (ledger_events-Ordered ps y rising) e small in
      let at : InOrder n (contents m') = rw k o' in
      (
        m',
        ap (λ events. events >>= λ es. appended (append m (bucket_of meta es)))
              (read_events-eq meta ps r c y)
            ∙ ap appended a,
        record {
          shaped = v.shaped;
          first = n;
          consecutive = at.consecutive;
          room = at.room;
          ordered = at.ordered;
        },
        k,
      )
