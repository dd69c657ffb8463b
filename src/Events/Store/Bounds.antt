-- ===== src/Events/Store/Bounds.antt =====
-- `validateRange`: which ranges it takes, and what it makes of them.
use soroban_rpc.Common.{
  ℕ, ◌+◌, ◌*◌, ◌^◌, ◌≤◌, ◌<◌, min, max, ◌≡◌, sym, subst, ◌∙◌, ◌⊎◌, inl, inr, true, pos, ltb, leb,
  ltb→lt, leb→lt, lt→leb, ltb_ℤ, leb_ℤ, if◌then◌else◌, arith, Bool-cases, ok, err, ◌>>=◌, >>=-eq-ok,
  if-err-ok,
}
use soroban_rpc.Window.{add_u32}
use soroban_rpc.Events.Cursor.{Cursor, cursor_cmp}
use soroban_rpc.Events.Cursor.Order.{InRange, key, cursor_cmp-key, is_at_least, is_before, is_after}
use soroban_rpc.Events.Store.{
  Range, start_before_oldest, start_after_newest, end_after_latest, start_not_before_end,
  ledger_start, clamp_low, clamp_high, check_order, check_end, check_range,
}

pub record Bounded (r : Range) : Type 0 where
  pub start_range : InRange r.start
  pub end_range : InRange r.end

pub ledger_start-InRange : (n : ℕ) → n < 2 ^ 32 → InRange (ledger_start n)
ledger_start-InRange n h = record {
  ledger_lt = h;
  tx_lt = omega arith;
  op_lt = omega arith;
  event_lt = omega arith;
}

pub key-ledger_start : (n : ℕ) → key (ledger_start n) ≡ 2 ^ 96 * n
unfolding key
key-ledger_start n = omega arith

-- The tests of the code, on the numbers of the cursors.
pub before-key :
    (c d : Cursor) → InRange c → InRange d → ltb_ℤ (cursor_cmp c d) (pos 0) ≡ ltb (key c) (key d)
before-key c d u v = rw (cursor_cmp-key c d u v) (is_before (key c) (key d))

after-key :
    (c d : Cursor) → InRange c → InRange d → ltb_ℤ (pos 0) (cursor_cmp c d) ≡ ltb (key d) (key c)
after-key c d u v = rw (cursor_cmp-key c d u v) (is_after (key c) (key d))

pub at_least-key :
    (c d : Cursor) → InRange c → InRange d → leb_ℤ (pos 0) (cursor_cmp c d) ≡ leb (key d) (key c)
at_least-key c d u v = rw (cursor_cmp-key c d u v) (is_at_least (key c) (key d))

clamp_low-eq :
    (r : Range) (lowest : Cursor)
    → InRange r.start
    → InRange lowest
    → clamp_low r lowest ≡ (
        if ltb (key r.start) (key lowest)
        then (if r.clamp_start then ok (record r { start = lowest }) else err start_before_oldest)
        else ok r)
clamp_low-eq r lowest u v = rw (before-key r.start lowest u v)

clamp_high-eq :
    (r : Range) (highest : Cursor)
    → InRange r.end
    → InRange highest
    → clamp_high r highest ≡ (
        if ltb (key highest) (key r.end)
        then (if r.clamp_end then ok (record r { end = highest }) else err end_after_latest)
        else ok r)
clamp_high-eq r highest u v = rw (after-key r.end highest u v)

-- What a range that is taken has become: a part of [lowest, highest) that is not empty, moved only
-- at an end that lay outside and that may be clamped.
pub record Resolved (lowest highest : Cursor) (r r' : Range) : Type 0 where
  pub bounded : Bounded r'
  pub start_max : key r'.start ≡ max (key r.start) (key lowest)
  pub end_min : key r'.end ≡ min (key r.end) (key highest)
  pub not_empty : key r'.start < key r'.end
  pub start_inside : key r'.start < key highest
  pub start_moved : (key lowest ≤ key r.start) ⊎ (r.clamp_start ≡ true)
  pub end_moved : (key r.end ≤ key highest) ⊎ (r.clamp_end ≡ true)

clamp_low-ok :
    (r r' : Range) (lowest : Cursor)
    → InRange r.start
    → InRange lowest
    → clamp_low r lowest ≡ ok r'
    → InRange r'.start
      × (key r'.start ≡ max (key r.start) (key lowest))
      × ((key lowest ≤ key r.start) ⊎ (r.clamp_start ≡ true))
      × (r'.end ≡ r.end)
      × (r'.clamp_end ≡ r.clamp_end)
clamp_low-ok r r' lowest u v e = ground (arith, clamp_low-eq r lowest u v)

clamp_high-ok :
    (r r' : Range) (highest : Cursor)
    → InRange r.end
    → InRange highest
    → clamp_high r highest ≡ ok r'
    → InRange r'.end
      × (key r'.end ≡ min (key r.end) (key highest))
      × ((key r.end ≤ key highest) ⊎ (r.clamp_end ≡ true))
      × (r'.start ≡ r.start)
clamp_high-ok r r' highest u v e = ground (arith, clamp_high-eq r highest u v)

check_order-ok :
    (r r' : Range) → Bounded r → check_order r ≡ ok r' → (key r.start < key r.end) × (r' ≡ r)
check_order-ok r r' b e =
    let (t, k) = if-err-ok _ start_not_before_end (ok r) e in
    (
      leb→lt (key r.end) (key r.start)
          (sym (at_least-key r.start r.end b.start_range b.end_range) ∙ t),
      ground arith,
    )

check_end-ok :
    (r r' : Range) (highest : Cursor)
    → Bounded r
    → InRange highest
    → check_end highest r ≡ ok r'
    → Bounded r'
      × (r'.start ≡ r.start)
      × (key r'.end ≡ min (key r.end) (key highest))
      × ((key r.end ≤ key highest) ⊎ (r.clamp_end ≡ true))
      × (key r.start < key highest)
      × (key r'.start < key r'.end)
check_end-ok r r' highest b v e =
    let (t, k) = if-err-ok _ start_after_newest (clamp_high r highest >>= check_order) e in
    let inside =
      leb→lt (key highest) (key r.start) (sym (at_least-key r.start highest b.start_range v) ∙ t) in
    let (q, e', k') = >>=-eq-ok (clamp_high r highest) check_order k in
    let h = clamp_high-ok r q highest b.end_range v e' in
    let bq : Bounded q = record { start_range = rw h.3 b.start_range; end_range = h.0 } in
    let (lt, same) = check_order-ok q r' bq k' in
    (rw same bq, rw (same, h.3), rw (same, h.1), h.2, inside, rw same lt)

-- A range that `validateRange` takes of `count` ledgers from `first` on becomes its part that the
-- ledgers cover, which is not empty; an end moves only where the range lets it be clamped.
pub check_range-ok :
    (first count : ℕ) (r r' : Range)
    → first + count < 2 ^ 32
    → Bounded r
    → check_range first count r ≡ ok r'
    → Resolved (ledger_start first) (ledger_start (first + count)) r r'
unfolding check_range
check_range-ok first count r r' room b e =
    let top : add_u32 first count ≡ first + count = omega arith in
    let lowest = ledger_start-InRange first (omega arith) in
    let highest = ledger_start-InRange (first + count) room in
    let (q, e', k) =
      >>=-eq-ok (clamp_low r (ledger_start first)) (check_end (ledger_start (add_u32 first count)))
        e in
    let l = clamp_low-ok r q (ledger_start first) b.start_range lowest e' in
    let bq : Bounded q = record { start_range = l.0; end_range = rw l.3 b.end_range } in
    let h =
      check_end-ok q r' (ledger_start (first + count)) bq highest
        (subst (λ n. check_end (ledger_start n) q ≡ ok r') top k) in
    record {
      bounded = h.0;
      start_max = rw h.1 l.1;
      end_min = h.2 ∙ rw l.3;
      not_empty = h.5;
      start_inside = rw h.1 h.4;
      start_moved = l.2;
      end_moved = rw (l.3, l.4) at h.3;
    }

clamp_low_complete :
    (r : Range) (lowest : Cursor)
    → InRange r.start
    → InRange lowest
    → (key lowest ≤ key r.start) ⊎ (r.clamp_start ≡ true)
    → (r' : Range) × (clamp_low r lowest ≡ ok r')
clamp_low_complete r lowest u v s = elim (Bool-cases (ltb (key r.start) (key lowest))) [
  | inl low ↦ (
    record r { start = lowest },
    clamp_low-eq r lowest u v ∙ rw low (ground (arith, ltb→lt _ _ low)),
  )
  | inr fine ↦ (r, clamp_low-eq r lowest u v ∙ rw fine)
]

clamp_high_complete :
    (r : Range) (highest : Cursor)
    → InRange r.end
    → InRange highest
    → (key r.end ≤ key highest) ⊎ (r.clamp_end ≡ true)
    → (r' : Range) × (clamp_high r highest ≡ ok r')
clamp_high_complete r highest u v s = elim (Bool-cases (ltb (key highest) (key r.end))) [
  | inl high ↦ (
    record r { end = highest },
    clamp_high-eq r highest u v ∙ rw high (ground (arith, ltb→lt _ _ high)),
  )
  | inr fine ↦ (r, clamp_high-eq r highest u v ∙ rw fine)
]

check_end_complete :
    (r : Range) (highest : Cursor)
    → Bounded r
    → InRange highest
    → (key r.end ≤ key highest) ⊎ (r.clamp_end ≡ true)
    → key r.start < min (key r.end) (key highest)
    → (r' : Range) × (check_end highest r ≡ ok r')
check_end_complete r highest b v e lt =
    let t =
      at_least-key r.start highest b.start_range v
      ∙ lt→leb (key highest) (key r.start) (omega arith) in
    let (q, k) = clamp_high_complete r highest b.end_range v e in
    let h = clamp_high-ok r q highest b.end_range v k in
    let t' =
      at_least-key q.start q.end (rw h.3 b.start_range) h.0
      ∙ lt→leb (key q.end) (key q.start) (rw (h.1, h.3) lt) in
    (q, rw (t, k, t'))

-- Every range that the ledgers meet, and whose ends may be clamped where they stick out, is taken.
pub check_range_complete :
    (first count : ℕ) (r : Range)
    → first + count < 2 ^ 32
    → Bounded r
    → (key (ledger_start first) ≤ key r.start) ⊎ (r.clamp_start ≡ true)
    → (key r.end ≤ key (ledger_start (first + count))) ⊎ (r.clamp_end ≡ true)
    → max (key r.start) (key (ledger_start first))
      < min (key r.end) (key (ledger_start (first + count)))
    → (r' : Range) × (check_range first count r ≡ ok r')
unfolding check_range
check_range_complete first count r room b s e h =
    let top : add_u32 first count ≡ first + count = omega arith in
    let lowest = ledger_start-InRange first (omega arith) in
    let highest = ledger_start-InRange (first + count) room in
    let (q, k) = clamp_low_complete r (ledger_start first) b.start_range lowest s in
    let l = clamp_low-ok r q (ledger_start first) b.start_range lowest k in
    let bq : Bounded q = record { start_range = l.0; end_range = rw l.3 b.end_range } in
    let (r', k') =
      check_end_complete q (ledger_start (first + count)) bq highest (rw (l.3, l.4) e)
        (rw (l.1, l.3) h) in
    (r', rw k (subst (λ n. check_end (ledger_start n) q ≡ ok r') (sym top) k'))
