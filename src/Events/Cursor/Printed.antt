-- ===== src/Events/Cursor/Printed.antt =====
-- A cursor that is printed is parsed as it was.
use soroban_rpc.Common.{
  ℕ, zero, suc, ◌+◌, ◌-◌, ◌/◌, ◌%◌, ◌^◌, ◌≤◌, ◌<◌, ◌≡◌, refl, sym, ap, subst, ◌∙◌, inl, inr, false,
  some, List, [], ◌∷◌, ◌++◌, ℤ, pos, ltb, ◌==◌, lt→ltb, ltb→lt, length, All, All-append, Bool-cases,
  arith, ok, digits, digits-suc, value_from, value_from-digits, in_range, positive, parse_int,
  parse_uint,
}
use soroban_rpc.Events.Cursor.{Cursor}
use soroban_rpc.Events.Cursor.Text.{zeros, format_int, cursor_string}
use soroban_rpc.Events.Cursor.Parse.{split_dash, with_parts, with_id, with_event, parse_cursor}

abbrev IsDigit : ℕ → Type 0
IsDigit b = (48 ≤ b) × (b < 58)

digits-All : (fuel n : ℕ) (bs : List ℕ) → All IsDigit bs → All IsDigit (digits fuel n bs)
digits-All zero n bs d = d
digits-All (suc fuel) n bs d = elim (Bool-cases (ltb n 10)) [
  | inl small ↦ rw small ((omega arith, omega (arith, ltb→lt n 10 small)), d)
  | inr large ↦
      rw large (digits-All fuel (n / 10) ((48 + n % 10) ∷ bs) ((omega arith, omega arith), d))
]

zeros-All : (n : ℕ) → All IsDigit (zeros n)
zeros-All zero = tt
zeros-All (suc n) = ((omega arith, omega arith), zeros-All n)

zeros-value_from : (n : ℕ) (bs : List ℕ) → value_from 0 (zeros n ++ bs) ≡ value_from 0 bs
zeros-value_from zero bs = refl
zeros-value_from (suc n) bs = zeros-value_from n bs

-- A number in some width: digits, at least one, that add up to it.
pub record IsPrinted (bytes : List ℕ) (n : ℕ) : Type 0 where
  pub digital : All IsDigit bytes
  pub value : value_from 0 bytes ≡ some n
  pub nonempty : (b : ℕ) × (bs : List ℕ) × (bytes ≡ b ∷ bs)

starts : (k b : ℕ) (bs : List ℕ) → (c : ℕ) × (cs : List ℕ) × (zeros k ++ (b ∷ bs) ≡ c ∷ cs)
starts zero b bs = (b, bs, refl)
starts (suc k) b bs = (48, zeros k ++ (b ∷ bs), refl)

format_int-IsPrinted : (width n : ℕ) → n < 10 ^ 20 → IsPrinted (format_int width (pos n)) n
format_int-IsPrinted width n h =
    let bytes = digits 20 n [] in
    let k = width - length bytes in
    let (b, bs, e) = digits-suc 19 n [] in
    let (c, cs, f) = starts k b bs in
    record {
      digital = All-append IsDigit (zeros k) bytes (zeros-All k) (digits-All 20 n [] tt);
      value = zeros-value_from k bytes ∙ value_from-digits 20 n [] h;
      nonempty = (c, cs, ap (λ xs. zeros k ++ xs) e ∙ f);
    }

-- The first dash is behind the digits.
split_dash-digits : (xs ys : List ℕ) → All IsDigit xs → split_dash (xs ++ (45 ∷ ys)) ≡ (xs, some ys)
split_dash-digits [] ys d = refl
split_dash-digits (x ∷ xs) ys (d, ds) =
    let other : (x == 45) ≡ false = ground (arith, d) in rw (other, split_dash-digits xs ys ds) refl

parse_int-digits :
    (bits : ℕ) (bytes : List ℕ) (n : ℕ)
    → IsPrinted bytes n
    → n < 2 ^ (bits - 1)
    → parse_int bits bytes ≡ some (pos n)
parse_int-digits bits bytes n p h =
    let (b, bs, e) = p.nonempty in
    let first : IsDigit b = (subst (All IsDigit) e p.digital).0 in
    let minus : (b == 45) ≡ false = ground (arith, first) in
    let plus : (b == 43) ≡ false = ground (arith, first) in
    let value : value_from 0 (b ∷ bs) ≡ some n = ap (value_from 0) (sym e) ∙ p.value in
    ap (parse_int bits) e
    ∙ rw (parse_int, minus, plus)
        (ap (positive (2 ^ (bits - 1))) value ∙ rw (lt→ltb n (2 ^ (bits - 1)) h) refl)

parse_uint-digits :
    (bits : ℕ) (bytes : List ℕ) (n : ℕ)
    → IsPrinted bytes n
    → n < 2 ^ bits
    → parse_uint bits bytes ≡ some n
parse_uint-digits bits bytes n p h =
    let (b, bs, e) = p.nonempty in
    let value : value_from 0 (b ∷ bs) ≡ some n = ap (value_from 0) (sym e) ∙ p.value in
    ap (parse_uint bits) e ∙ ap (in_range (2 ^ bits)) value ∙ rw (lt→ltb n (2 ^ bits) h) refl

-- toid packs a ledger below 2^31, a transaction below 2^20 and an operation below 2^12 into a positive
-- int64, and Parse takes it apart.
abbrev pub IsToid : (ℕ → ℕ → ℕ → ℤ) → (ℤ → ℕ × ℕ × ℕ) → Type 0
IsToid toid parse_toid =
    (l t o : ℕ)
    → l < 2 ^ 31
    → t < 2 ^ 20
    → o < 2 ^ 12
    → (n : ℕ) × (toid l t o ≡ pos n) × (n < 2 ^ 63) × (parse_toid (pos n) ≡ (l, t, o))

-- A cursor whose ledger, transaction and operation fit into a toid, and whose event is a uint32, is
-- parsed from its string.
pub parse_cursor-cursor_string :
    (toid : ℕ → ℕ → ℕ → ℤ) (parse_toid : ℤ → ℕ × ℕ × ℕ)
    → IsToid toid parse_toid
    → (c : Cursor) → c.ledger < 2 ^ 31
    → c.tx < 2 ^ 20
    → c.op < 2 ^ 12
    → c.event < 2 ^ 32
    → parse_cursor parse_toid (cursor_string toid c) ≡ ok c
unfolding parse_cursor cursor_string
parse_cursor-cursor_string toid parse_toid inverse c hl ht ho he =
    let (n, packed, small, unpacked) = inverse c.ledger c.tx c.op hl ht ho in
    let id = format_int-IsPrinted 19 n (omega (arith, small)) in
    let event = format_int-IsPrinted 10 c.event (omega (arith, he)) in
    ap
      (λ z.
        with_parts parse_toid (split_dash (format_int 19 z ++ (45 ∷ format_int 10 (pos c.event)))))
      packed
    ∙ ap (with_parts parse_toid)
        (split_dash-digits (format_int 19 (pos n)) (format_int 10 (pos c.event)) id.digital)
    ∙ ap (with_id parse_toid (format_int 10 (pos c.event)))
        (parse_int-digits 64 (format_int 19 (pos n)) n id small)
    ∙ ap (with_event (parse_toid (pos n)))
        (parse_uint-digits 32 (format_int 10 (pos c.event)) c.event event he)
    ∙ ap (λ i. with_event i (some c.event)) unpacked
