-- ===== src/Events/Cursor.antt =====
-- internal/events/cursor.go: the position of an event, and the order of positions.
pub mod Order
pub mod Text
pub mod Parse
pub mod Printed
use soroban_rpc.Common.{ℕ, ◌-◌, ◌^◌, ℤ, pos, negsuc, ltb, ◌==◌, if◌then◌else◌}

-- Cursor
pub record Cursor : Type 0 where
  pub ledger : ℕ
  pub tx : ℕ
  pub op : ℕ
  pub event : ℕ

-- cmp, on two `uint32`
unfoldable pub cmp : ℕ → ℕ → ℤ
cmp a b = if ltb a b then negsuc 0 else if ltb b a then pos 1 else pos 0

-- Cursor.Cmp
unfoldable pub cursor_cmp : Cursor → Cursor → ℤ
cursor_cmp c other =
    if c.ledger == other.ledger
    then (if c.tx == other.tx
        then (if c.op == other.op then cmp c.event other.event else cmp c.op other.op)
        else cmp c.tx other.tx)
    else cmp c.ledger other.ledger

-- MinCursor
abbrev pub min_cursor : Cursor
min_cursor = record { ledger = 0; tx = 0; op = 0; event = 0 }

-- MaxCursor, every field math.MaxUint32
abbrev pub max_cursor : Cursor
max_cursor = record { ledger = 2 ^ 32 - 1; tx = 2 ^ 32 - 1; op = 2 ^ 32 - 1; event = 2 ^ 32 - 1 }
