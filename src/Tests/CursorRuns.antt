-- ===== src/Tests/CursorRuns.antt =====
-- A cursor printed and parsed, with a toid of 31, 20 and 12 bits.
use soroban_rpc.Common.{ℕ, ◌+◌, ◌*◌, ◌/◌, ◌%◌, ◌^◌, ◌≡◌, refl, ℤ, pos, negsuc, arith, ok}
use soroban_rpc.Events.Cursor.{Cursor}
use soroban_rpc.Events.Cursor.Text.{cursor_string}
use soroban_rpc.Events.Cursor.Parse.{parse_cursor}
use soroban_rpc.Events.Cursor.Printed.{IsToid, parse_cursor-cursor_string}

abbrev pack : ℕ → ℕ → ℕ → ℤ
pack l t o = pos (l * 2 ^ 32 + t * 2 ^ 12 + o)

abbrev unpack : ℤ → ℕ × ℕ × ℕ
unpack (pos n) = (n / 2 ^ 32, n / 2 ^ 12 % 2 ^ 20, n % 2 ^ 12)
unpack (negsuc n) = (0, 0, 0)

pack-IsToid : IsToid pack unpack
pack-IsToid l t o hl ht ho =
    let n = l * 2 ^ 32 + t * 2 ^ 12 + o in
    let ledger : n / 2 ^ 32 ≡ l = omega (arith, hl, ht, ho) in
    let tx : n / 2 ^ 12 % 2 ^ 20 ≡ t = omega (arith, hl, ht, ho) in
    let op : n % 2 ^ 12 ≡ o = omega (arith, hl, ht, ho) in
    (n, refl, omega (arith, hl, ht, ho), rw (ledger, tx, op) refl)

abbrev place : Cursor
place = record { ledger = 1234; tx = 5; op = 1; event = 7 }

parse_cursor-cursor_string_example : parse_cursor unpack (cursor_string pack place) ≡ ok place
parse_cursor-cursor_string_example =
    parse_cursor-cursor_string pack unpack pack-IsToid place (omega arith) (omega arith)
      (omega arith) (omega arith)
