-- ===== src/Events/Store/Arrival.antt =====
-- What readEvents makes of the transactions of a ledger, and that it is in order.
use mathlib.Core.List.{append_assoc, append-nil}
use soroban_rpc.Common.{
  ℕ, ◌+◌, ◌%◌, ◌^◌, ◌≤◌, ◌<◌, ◌≡◌, refl, ap, ◌∙◌, ◌⊎◌, inl, inr, true, false, some, List, [], ◌∷◌,
  ◌++◌, map, arith, length, All, All-append, All-map_imp, ok, ◌>>=◌,
}
use soroban_rpc.Events.Cursor.Order.{key}
use soroban_rpc.Events.Store.{Event}
use soroban_rpc.Events.Store.Seek.{Ordered, place}
use soroban_rpc.Events.Store.Ingest.{
  EventTransaction, EventRead, transaction, store_events, events_of_transaction, read_all,
}

module _ {Hash : Type 0} where
  -- The events of a transaction, numbered from an index on.
  abbrev pub numbered : EventTransaction Hash → ℕ → List (List ℕ) → List (Event Hash)
  numbered tx i [] = []
  numbered tx i (xdr ∷ xdrs) =
      record {
        diagnostic_event_xdr = xdr;
        tx_index = tx.index;
        event_index = i;
        tx_hash = tx.transaction_hash;
      }
      ∷ numbered tx (i + 1) xdrs

  store_events-eq :
      (tx : EventTransaction Hash) (i : ℕ) (xdrs : List (List ℕ))
      → i + length xdrs < 2 ^ 32
      → store_events tx i (map some xdrs) ≡ ok (numbered tx i xdrs)
  unfolding store_events
  store_events-eq tx i [] h = refl
  store_events-eq tx i (xdr ∷ xdrs) h =
      let small : i % 2 ^ 32 ≡ i = omega arith in
      let next = store_events-eq tx (i + 1) xdrs (omega arith) in rw (next, small)

  -- A transaction whose events can all be stored: `xdrs` are those of a successful one.
  abbrev pub Yields : EventTransaction Hash → List (List ℕ) → Type 0
  Yields tx xdrs =
      ((tx.successful ≡ true)
        × (tx.diagnostic_events ≡ some (map some xdrs))
        × (length xdrs < 2 ^ 32))
      ⊎ ((tx.successful ≡ false) × (xdrs ≡ []))

  events_of_transaction-eq :
      (tx : EventTransaction Hash) (xdrs : List (List ℕ))
      → Yields tx xdrs
      → events_of_transaction tx ≡ ok (numbered tx 0 xdrs)
  unfolding events_of_transaction
  events_of_transaction-eq tx xdrs (inl y) =
      rw (y.0, y.1, events_of_transaction) (store_events-eq tx 0 xdrs (omega (arith, y.2)))
  events_of_transaction-eq tx xdrs (inr n) = rw (n.0, n.1, events_of_transaction) refl

  -- The events of the transactions of a ledger, each with the events that it yields.
  abbrev pub ledger_events : List (EventTransaction Hash × List (List ℕ)) → List (Event Hash)
  ledger_events [] = []
  ledger_events (p ∷ ps) = numbered p.0 0 p.1 ++ ledger_events ps

  abbrev pub AllYield : List (EventTransaction Hash × List (List ℕ)) → Type 0
  AllYield ps = All (λ p. Yields p.0 p.1) ps

  -- The reader numbers the transactions of a ledger upwards, as `uint32`.
  abbrev pub Rising : List (EventTransaction Hash × List (List ℕ)) → Type 0
  Rising [] = Unit
  Rising (p ∷ ps) = (p.0.index < 2 ^ 32) × All (λ q. p.0.index < q.0.index) ps × Rising ps

  abbrev pub reads_of : List (EventTransaction Hash × List (List ℕ)) → List (EventRead Hash)
  reads_of ps = map (λ p. transaction p.0) ps

  pub read_all-eq :
      (ps : List (EventTransaction Hash × List (List ℕ))) (events : List (Event Hash))
      → AllYield ps
      → read_all false (reads_of ps) events ≡ ok (events ++ ledger_events ps)
  unfolding read_all
  read_all-eq [] events y = rw append-nil
  read_all-eq (p ∷ ps) events y =
      ap (λ r. r >>= λ more. read_all false (reads_of ps) (events ++ more))
        (events_of_transaction-eq p.0 p.1 y.0)
      ∙ read_all-eq ps (events ++ numbered p.0 0 p.1) y.1
      ∙ ap ok (append_assoc events (numbered p.0 0 p.1) (ledger_events ps))

  place-index :
      (d e : Event Hash) → d.event_index < 2 ^ 32 → d.tx_index < e.tx_index → place d ≤ place e
  unfolding place key
  place-index d e h k = omega arith

  -- The events of a transaction have its index, and they come before those of later transactions.
  numbered-index :
      (tx : EventTransaction Hash) (i : ℕ) (xdrs : List (List ℕ))
      → All (λ e. (e.tx_index ≡ tx.index) × (i ≤ e.event_index)) (numbered tx i xdrs)
  numbered-index tx i [] = tt
  numbered-index tx i (xdr ∷ xdrs) = (
    (refl, omega arith),
    All-map_imp _ _ (numbered tx (i + 1) xdrs) (λ e h. (h.0, omega (arith, h.1)))
        (numbered-index tx (i + 1) xdrs),
  )

  ledger_events-above :
      (n : ℕ) (ps : List (EventTransaction Hash × List (List ℕ)))
      → All (λ q. n < q.0.index) ps
      → All (λ e. n < e.tx_index) (ledger_events ps)
  ledger_events-above n [] h = tt
  ledger_events-above n (p ∷ ps) h =
      All-append _ (numbered p.0 0 p.1) (ledger_events ps)
        (All-map_imp _ _ (numbered p.0 0 p.1) (λ e k. omega (arith, k.0, h.0))
          (numbered-index p.0 0 p.1))
        (ledger_events-above n ps h.1)

  place-number :
      (tx : EventTransaction Hash) (i : ℕ) (xdr : List ℕ) (e : Event Hash)
      → e.tx_index ≡ tx.index
      → i + 1 ≤ e.event_index
      → place (record {
        diagnostic_event_xdr = xdr;
        tx_index = tx.index;
        event_index = i;
        tx_hash = tx.transaction_hash;
      })
        ≤ place e
  unfolding place key
  place-number tx i xdr e h k = omega arith

  numbered-Ordered :
      (tx : EventTransaction Hash) (i : ℕ) (xdrs : List (List ℕ)) (es : List (Event Hash))
      → tx.index < 2 ^ 32
      → i + length xdrs < 2 ^ 32
      → All (λ e. tx.index < e.tx_index) es
      → Ordered es
      → Ordered (numbered tx i xdrs ++ es)
  numbered-Ordered tx i [] es t h above o = o
  numbered-Ordered tx i (xdr ∷ xdrs) es t h above o = (
    t,
    omega arith,
    All-append _ (numbered tx (i + 1) xdrs) es
        (All-map_imp _ _ (numbered tx (i + 1) xdrs) (λ e k. place-number tx i xdr e k.0 k.1)
          (numbered-index tx (i + 1) xdrs))
        (All-map_imp _ _ es (λ e k. place-index _ e (omega arith) k) above),
    numbered-Ordered tx (i + 1) xdrs es t (omega arith) above o,
  )

  Yields-length :
      (tx : EventTransaction Hash) (xdrs : List (List ℕ)) → Yields tx xdrs → length xdrs < 2 ^ 32
  Yields-length tx xdrs (inl y) = y.2
  Yields-length tx xdrs (inr n) = rw n.1 (omega arith)

  pub ledger_events-Ordered :
      (ps : List (EventTransaction Hash × List (List ℕ)))
      → AllYield ps
      → Rising ps
      → Ordered (ledger_events ps)
  ledger_events-Ordered [] y r = tt
  ledger_events-Ordered (p ∷ ps) y r =
      numbered-Ordered p.0 0 p.1 (ledger_events ps) r.0 (omega (arith, Yields-length p.0 p.1 y.0))
        (ledger_events-above p.0.index ps r.1) (ledger_events-Ordered ps y.1 r.2)
