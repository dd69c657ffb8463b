-- ===== src/Events/Store/Seek.antt =====
-- `seek` in a bucket whose events are in order.
use soroban_rpc.Common.{
  ℕ, zero, suc, ◌+◌, ◌*◌, ◌^◌, ◌≤◌, ◌<◌, ◌≡◌, sym, ◌∙◌, Bool, true, some, List, [], ◌∷◌, pos, leb,
  leb→le, le→leb, leb_ℤ, arith, length, get_elem?, filter, holds_at, All, All-get_elem?,
  filter-eq-drop, get_elem?-eq_some,
}
use soroban_rpc.Events.Cursor.{Cursor, cursor_cmp}
use soroban_rpc.Events.Cursor.Order.{InRange, key, cursor_cmp-key, is_at_most}
use soroban_rpc.Events.Store.{Event, cursor, seek, reached, search}
use soroban_rpc.Events.Store.Search.{search-Splits, Monotone}

module _ {Hash : Type 0} where
  -- The place of an event in its ledger, as a number.
  unfoldable pub place : Event Hash → ℕ
  unfolding key
  place e = key (cursor e 0)

  -- Indices are `uint32`, and the places do not decrease.
  abbrev pub Ordered : List (Event Hash) → Type 0
  Ordered [] = Unit
  Ordered (e ∷ es) =
      (e.tx_index < 2 ^ 32)
      × (e.event_index < 2 ^ 32)
      × All (λ e'. place e ≤ place e') es
      × Ordered es

  pub cursor-InRange :
      (e : Event Hash) (n : ℕ)
      → e.tx_index < 2 ^ 32
      → e.event_index < 2 ^ 32
      → n < 2 ^ 32
      → InRange (cursor e n)
  cursor-InRange e n t i h = record { ledger_lt = h; tx_lt = t; op_lt = omega arith; event_lt = i }

  pub key-place : (e : Event Hash) (n : ℕ) → key (cursor e n) ≡ place e + 2 ^ 96 * n
  unfolding key place
  key-place e n = omega arith

  -- The test of `seek` at an event.
  abbrev pub at_or_after : Cursor → Event Hash → Bool
  at_or_after c e = leb_ℤ (cursor_cmp c (cursor e c.ledger)) (pos 0)

  indexed :
      (es : List (Event Hash)) (i : ℕ) (e : Event Hash)
      → Ordered es
      → get_elem? es i ≡ some e
      → (e.tx_index < 2 ^ 32) × (e.event_index < 2 ^ 32)
  indexed [] i e o h = cc
  indexed (x ∷ xs) zero e o h = ground (arith, o.0, o.1)
  indexed (x ∷ xs) (suc i) e o h = indexed xs i e o.3 h

  ascending :
      (es : List (Event Hash)) (i j : ℕ) (d e : Event Hash)
      → Ordered es
      → i ≤ j
      → get_elem? es i ≡ some d
      → get_elem? es j ≡ some e
      → place d ≤ place e
  ascending [] i j d e o le h k = cc
  ascending (x ∷ xs) zero zero d e o le h k = let q : d ≡ e = (cc) in rw q (omega arith)
  ascending (x ∷ xs) zero (suc j) d e o le h k =
      let p = All-get_elem? (λ e'. place x ≤ place e') xs j e o.2 k in
      let q : x ≡ d = (cc) in rw (← q) p
  ascending (x ∷ xs) (suc i) zero d e o le h k = elim le [ ]
  ascending (x ∷ xs) (suc i) (suc j) d e o le h k = ascending xs i j d e o.3 (omega arith) h k

  pub at_or_after-key :
      (c : Cursor) (e : Event Hash)
      → InRange c
      → e.tx_index < 2 ^ 32
      → e.event_index < 2 ^ 32
      → at_or_after c e ≡ leb (key c) (place e + 2 ^ 96 * c.ledger)
  at_or_after-key c e v t i = rw (
    cursor_cmp-key c (cursor e c.ledger) v (cursor-InRange e c.ledger t i v.ledger_lt),
    is_at_most,
    key-place e c.ledger,
  )

  at_or_after-Monotone :
      (c : Cursor) (es : List (Event Hash))
      → InRange c
      → Ordered es
      → Monotone (length es) (holds_at (at_or_after c) es)
  at_or_after-Monotone c es v o i j le lt h =
      let (d, p) = get_elem?-eq_some es i (omega arith) in
      let (e, q) = get_elem?-eq_some es j lt in
      let (t, u) = indexed es i d o p in
      let (t', u') = indexed es j e o q in
      let before = at_or_after-key c d v t u in
      let after = at_or_after-key c e v t' u' in
      let hit : at_or_after c d ≡ true = rw (p, holds_at) at h in
      let order = ascending es i j d e o le p q in
      rw (q, holds_at, after)
        (le→leb (key c) _ (omega (arith, leb→le (key c) _ (sym before ∙ hit), order)))

  -- `seek` keeps exactly the events at or after the cursor, in their order.
  pub seek-eq-filter :
      (c : Cursor) (es : List (Event Hash))
      → InRange c
      → Ordered es
      → seek es c ≡ filter (at_or_after c) es
  unfolding seek reached
  seek-eq-filter c es v o =
      let s =
        search-Splits (length es) (holds_at (at_or_after c) es) (at_or_after-Monotone c es v o) in
      sym (
        filter-eq-drop (at_or_after c) es (search (length es) (holds_at (at_or_after c) es)) s.below
          s.above)
