-- ===== src/Events/Cursor/Parse.antt =====
-- ParseCursor of internal/events/cursor.go. The fields of a toid are the bit patterns of its int32.
use soroban_rpc.Common.{
  ℕ, Option, none, some, List, [], ◌∷◌, ℤ, ◌==◌, if◌then◌else◌, Outcome, ok, err, parse_int,
  parse_uint,
}
use soroban_rpc.Events.Cursor.{Cursor}

pub data CursorError : Type 0 where
  no_separator : CursorError
  invalid_id : CursorError
  invalid_event : CursorError

-- SplitN at the first dash, into two parts, or one where there is none.
abbrev pub split_dash : List ℕ → List ℕ × Option (List ℕ)
split_dash [] = ([], none)
split_dash (b ∷ bs) =
    let rest = split_dash bs in if b == 45 then ([], some bs) else (b ∷ rest.0, rest.1)

abbrev pub with_event : ℕ × ℕ × ℕ → Option ℕ → Outcome CursorError Cursor
with_event id none = err invalid_event
with_event id (some e) = ok (record { ledger = id.0; tx = id.1; op = id.2; event = e })

abbrev pub with_id : (ℤ → ℕ × ℕ × ℕ) → List ℕ → Option ℤ → Outcome CursorError Cursor
with_id parse_toid event none = err invalid_id
with_id parse_toid event (some n) = with_event (parse_toid n) (parse_uint 32 event)

abbrev pub with_parts : (ℤ → ℕ × ℕ × ℕ) → List ℕ × Option (List ℕ) → Outcome CursorError Cursor
with_parts parse_toid (id, none) = err no_separator
with_parts parse_toid (id, some event) = with_id parse_toid event (parse_int 64 id)

-- ParseCursor
unfoldable pub parse_cursor : (ℤ → ℕ × ℕ × ℕ) → List ℕ → Outcome CursorError Cursor
parse_cursor parse_toid input = with_parts parse_toid (split_dash input)
