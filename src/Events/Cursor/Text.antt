-- ===== src/Events/Cursor/Text.antt =====
-- Cursor.String of internal/events/cursor.go, a list of bytes. The toid of a position is that of
-- stellar/go, a parameter.
use soroban_rpc.Common.{ℕ, zero, suc, ◌-◌, List, [], ◌∷◌, ◌++◌, ℤ, pos, negsuc, length, digits}
use soroban_rpc.Events.Cursor.{Cursor}

abbrev pub zeros : ℕ → List ℕ
zeros zero = []
zeros (suc n) = 48 ∷ zeros n

-- The verb %0wd, of numbers below 10 ^ 20; the sign counts for the width.
abbrev pub padded : ℕ → List ℕ → List ℕ
padded width bytes = zeros (width - length bytes) ++ bytes

abbrev pub format_int : ℕ → ℤ → List ℕ
format_int width (pos n) = padded width (digits 20 n [])
format_int width (negsuc n) = 45 ∷ padded (width - 1) (digits 20 (suc n) [])

-- Cursor.String
unfoldable pub cursor_string : (ℕ → ℕ → ℕ → ℤ) → Cursor → List ℕ
cursor_string toid c = format_int 19 (toid c.ledger c.tx c.op) ++ (45 ∷ format_int 10 (pos c.event))
