-- ===== src/Events/Cursor/Order.antt =====
-- `Cmp` is the order of one 128-bit number made of the four fields.
use soroban_rpc.Common.{
  ℕ, ◌+◌, ◌*◌, ◌^◌, ◌<◌, ◌≡◌, pos, negsuc, ltb, leb, ltb_ℤ, leb_ℤ, ◌==◌, if◌then◌else◌, arith, true,
}
use soroban_rpc.Events.Cursor.{Cursor, cmp, cursor_cmp, min_cursor, max_cursor}

-- Every field is a `uint32`.
pub record InRange (c : Cursor) : Type 0 where
  pub ledger_lt : c.ledger < 2 ^ 32
  pub tx_lt : c.tx < 2 ^ 32
  pub op_lt : c.op < 2 ^ 32
  pub event_lt : c.event < 2 ^ 32

-- The fields as the digits of a number in base 2^32.
unfoldable pub key : Cursor → ℕ
key c = c.event + 2 ^ 32 * (c.op + 2 ^ 32 * (c.tx + 2 ^ 32 * c.ledger))

digit_lt : (a b x y : ℕ) → x < 2 ^ 32 → a < b → x + 2 ^ 32 * a < y + 2 ^ 32 * b
digit_lt a b x y h k = omega arith

cmp-lt : (a b : ℕ) → a < b → cmp a b ≡ negsuc 0
unfolding cmp
cmp-lt a b h = ground arith

cmp-gt : (a b : ℕ) → b < a → cmp a b ≡ pos 1
unfolding cmp
cmp-gt a b h = ground arith

pub cmp_self : (a : ℕ) → cmp a a ≡ pos 0
unfolding cmp
cmp_self a = ground arith

-- One more digit decides only between equals.
cmp-digit :
    (a b x y : ℕ)
    → x < 2 ^ 32
    → y < 2 ^ 32
    → cmp (x + 2 ^ 32 * a) (y + 2 ^ 32 * b) ≡ (if a == b then cmp x y else cmp a b)
unfolding cmp
cmp-digit a b x y h k = ground arith

pub cursor_cmp-key : (c d : Cursor) → InRange c → InRange d → cursor_cmp c d ≡ cmp (key c) (key d)
unfolding cursor_cmp key
cursor_cmp-key c d u v =
    let t = c.tx + 2 ^ 32 * c.ledger in
    let t' = d.tx + 2 ^ 32 * d.ledger in
    let o = c.op + 2 ^ 32 * t in
    let o' = d.op + 2 ^ 32 * t' in
    rw
      (
        cmp-digit o o' c.event d.event u.event_lt v.event_lt,
        cmp-digit t t' c.op d.op u.op_lt v.op_lt,
        cmp-digit c.ledger d.ledger c.tx d.tx u.tx_lt v.tx_lt,
      )
      (ground arith)

-- Only equal cursors have the same number.
pub key-injective : (c d : Cursor) → InRange c → InRange d → key c ≡ key d → c ≡ d
unfolding key
key-injective c d u v h = ground arith

-- The sign of `Cmp`, as the code tests it.
pub is_before : (a b : ℕ) → ltb_ℤ (cmp a b) (pos 0) ≡ ltb a b
unfolding cmp
is_before a b = ground arith

pub is_at_most : (a b : ℕ) → leb_ℤ (cmp a b) (pos 0) ≡ leb a b
unfolding cmp
is_at_most a b = ground arith

pub is_at_least : (a b : ℕ) → leb_ℤ (pos 0) (cmp a b) ≡ leb b a
unfolding cmp
is_at_least a b = ground arith

pub is_after : (a b : ℕ) → ltb_ℤ (pos 0) (cmp a b) ≡ ltb b a
unfolding cmp
is_after a b = ground arith

-- `MinCursor` and `MaxCursor` bound every cursor.
pub cursor_bounds :
    (c : Cursor)
    → InRange c
    → (leb_ℤ (cursor_cmp min_cursor c) (pos 0) ≡ true)
      × (leb_ℤ (cursor_cmp c max_cursor) (pos 0) ≡ true)
unfolding cursor_cmp cmp
cursor_bounds c u = (ground arith, ground arith)
