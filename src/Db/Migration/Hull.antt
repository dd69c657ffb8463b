-- ===== src/Db/Migration/Hull.antt =====
-- The range of several migrations is the smallest one that covers the ranges of all.
use soroban_rpc.Common.{ℕ, ◌≤◌, ◌≡◌, true, Option, none, some, List, [], ◌∷◌, arith, All}
use soroban_rpc.Db.Migration.{
  LedgerSeqRange, is_ledger_included, merge, Session, GuardedMigration, guarded_range, range_loop,
  multi_range,
}

-- A range within another, the empty one within all.
abbrev pub Within : Option LedgerSeqRange → Option LedgerSeqRange → Type 0
Within r other = (seq : ℕ) → is_ledger_included r seq ≡ true → is_ledger_included other seq ≡ true

-- Not empty, where there is a range.
abbrev pub IsProper : Option LedgerSeqRange → Type 0
IsProper none = Unit
IsProper (some r) = r.first_ledger_seq ≤ r.last_ledger_seq

merge-Within : (a b : Option LedgerSeqRange) → Within a (merge a b) × Within b (merge a b)
merge-Within none b = (λ seq h. cc, λ seq h. h)
merge-Within (some r) none = (λ seq h. h, λ seq h. cc)
merge-Within (some r) (some q) = (λ seq h. ground arith, λ seq h. ground arith)

merge-IsProper : (a b : Option LedgerSeqRange) → IsProper a → IsProper b → IsProper (merge a b)
merge-IsProper none b p q = q
merge-IsProper (some r) none p q = p
merge-IsProper (some r) (some o) p q = omega arith

-- The interval between two ledgers of a range is in it.
merge_least :
    (a b other : Option LedgerSeqRange)
    → IsProper a
    → IsProper b
    → Within a other
    → Within b other
    → Within (merge a b) other
merge_least none b other p q u v = v
merge_least (some r) none other p q u v = u
merge_least (some r) (some o) none p q u v = λ seq h. cc (u r.first_ledger_seq (ground arith))
merge_least (some r) (some o) (some t) p q u v = λ seq h.
    let a = u r.first_ledger_seq (ground arith) in
    let b = u r.last_ledger_seq (ground arith) in
    let c = v o.first_ledger_seq (ground arith) in
    let d = v o.last_ledger_seq (ground arith) in ground arith

module _ {D A Meta E : Type 0} (s : Session D A Meta E) where
  abbrev pub AllProper : List (GuardedMigration D A) → Type 0
  AllProper gs = All (λ g. IsProper (guarded_range s g)) gs

  abbrev pub AllWithin : Option LedgerSeqRange → List (GuardedMigration D A) → Type 0
  AllWithin other gs = All (λ g. Within (guarded_range s g) other) gs

  range_loop-Within :
      (gs : List (GuardedMigration D A)) (result : Option LedgerSeqRange)
      → Within result (range_loop s gs result) × AllWithin (range_loop s gs result) gs
  range_loop-Within [] result = (λ seq h. h, tt)
  range_loop-Within (g ∷ gs) result =
      let m = merge-Within (guarded_range s g) result in
      let (rest, all) = range_loop-Within gs (merge (guarded_range s g) result) in
      (λ seq h. rest seq (m.1 seq h), (λ seq h. rest seq (m.0 seq h), all))

  range_loop_least :
      (gs : List (GuardedMigration D A)) (result other : Option LedgerSeqRange)
      → IsProper result
      → AllProper gs
      → Within result other
      → AllWithin other gs
      → Within (range_loop s gs result) other
  range_loop_least [] result other p ps u us = u
  range_loop_least (g ∷ gs) result other p ps u us =
      range_loop_least gs (merge (guarded_range s g) result) other
        (merge-IsProper (guarded_range s g) result ps.0 p) ps.1
        (merge_least (guarded_range s g) result other ps.0 p us.0 u) us.1

  -- Of migrations none of whose ranges ends before it starts, the range of the whole covers each of
  -- theirs, and every range that covers each of theirs covers it.
  pub multi_range-Within :
      (gs : List (GuardedMigration D A))
      → AllProper gs
      → AllWithin (multi_range s gs) gs
        × ((other : Option LedgerSeqRange) → AllWithin other gs → Within (multi_range s gs) other)
  multi_range-Within gs p = (
    (range_loop-Within gs none).1,
    λ other us. range_loop_least gs none other tt p (λ seq h. cc) us,
  )
