-- ===== src/Common/Decimal.antt =====
-- Decimal numbers as strconv prints and parses them; strings are lists of bytes.
use Prim.Native.Nat.{ℕ, zero, suc, ◌+◌, ◌-◌, ◌*◌, ◌/◌, ◌%◌, ◌^◌, ◌<◌}
use mathlib.Core.Path.{◌≡◌, refl, sym, ap, ◌∙◌}
use mathlib.Core.Logic.{inl, inr}
use mathlib.Core.Bool.{true, ◌&&◌}
use mathlib.Core.Option.{Option, none, some}
use mathlib.Core.List.{List, [], ◌∷◌}
use native.Mathlib.Omega.{arith}
use soroban_rpc.Common.Int.{ℤ, pos, negsuc}
use soroban_rpc.Common.Tests.{if◌then◌else◌, ◌==◌, ltb, leb, Bool-cases, ltb→lt, lt→ltb}

-- The decimal digits of a number below 10 ^ fuel, in front of some bytes.
abbrev pub digits : ℕ → ℕ → List ℕ → List ℕ
digits zero n bytes = bytes
digits (suc fuel) n bytes =
    let more = digits fuel (n / 10) ((48 + n % 10) ∷ bytes) in
    if ltb n 10 then (48 + n) ∷ bytes else more

-- FormatUint in base 10, of a number below 10 ^ 20, as every uint64 is.
abbrev pub format_uint : ℕ → List ℕ
format_uint n = digits 20 n []

-- The number that some digits add to those read before; a byte that is no digit is an error.
abbrev pub value_from : ℕ → List ℕ → Option ℕ
value_from acc [] = some acc
value_from acc (b ∷ bs) =
    let rest = value_from (acc * 10 + (b - 48)) bs in if leb 48 b && leb b 57 then rest else none

abbrev pub in_range : ℕ → Option ℕ → Option ℕ
in_range bound none = none
in_range bound (some n) = if ltb n bound then some n else none

-- ParseUint in base 10 to some bits; the two kinds of error are one here.
abbrev pub parse_uint : ℕ → List ℕ → Option ℕ
parse_uint bits [] = none
parse_uint bits (b ∷ bs) = in_range (2 ^ bits) (value_from 0 (b ∷ bs))

-- ParseInt in base 10 to some bits, with a sign in front or none.
abbrev pub negated : ℕ → Option ℕ → Option ℤ
negated bound none = none
negated bound (some zero) = some (pos 0)
negated bound (some (suc n)) = if ltb n bound then some (negsuc n) else none

abbrev pub positive : ℕ → Option ℕ → Option ℤ
positive bound none = none
positive bound (some n) = if ltb n bound then some (pos n) else none

abbrev pub unsigned : List ℕ → Option ℕ
unsigned [] = none
unsigned (b ∷ bs) = value_from 0 (b ∷ bs)

abbrev pub parse_int : ℕ → List ℕ → Option ℤ
parse_int bits [] = none
parse_int bits (b ∷ bs) =
    if b == 45
    then negated (2 ^ (bits - 1)) (unsigned bs)
    else if b == 43
    then positive (2 ^ (bits - 1)) (unsigned bs)
    else positive (2 ^ (bits - 1)) (unsigned (b ∷ bs))

is_digit : (d : ℕ) → d < 10 → (leb 48 (48 + d) && leb (48 + d) 57) ≡ true
is_digit d h = ground arith

value_from-digit :
    (acc d : ℕ) (bs : List ℕ)
    → d < 10
    → value_from acc ((48 + d) ∷ bs) ≡ value_from (acc * 10 + d) bs
value_from-digit acc d bs h =
    rw (is_digit d h) (
      ap (λ n. value_from n bs)
        (let e : acc * 10 + (48 + d - 48) ≡ acc * 10 + d = omega arith in e))

-- The digits of a number, read from 0, add up to it.
pub value_from-digits :
    (fuel n : ℕ) (bs : List ℕ) → n < 10 ^ fuel → value_from 0 (digits fuel n bs) ≡ value_from n bs
value_from-digits zero n bs h = ap (λ m. value_from m bs) (let e : 0 ≡ n = omega arith in e)
value_from-digits (suc fuel) n bs h = elim (Bool-cases (ltb n 10)) [
  | inl small ↦ rw small (
      value_from-digit 0 n bs (ltb→lt n 10 small)
      ∙ ap (λ m. value_from m bs) (let e : 0 * 10 + n ≡ n = omega arith in e))
  | inr large ↦
      let tenth : n / 10 < 10 ^ fuel = omega arith in
      let last : n % 10 < 10 = omega arith in
      rw large (
        value_from-digits fuel (n / 10) ((48 + n % 10) ∷ bs) tenth
        ∙ value_from-digit (n / 10) (n % 10) bs last
        ∙ ap (λ m. value_from m bs) (let e : n / 10 * 10 + n % 10 ≡ n = omega arith in e))
]

pub digits-suc :
    (fuel n : ℕ) (bs : List ℕ) → (b : ℕ) × (cs : List ℕ) × (digits (suc fuel) n bs ≡ b ∷ cs)
digits-suc zero n bs = elim (Bool-cases (ltb n 10)) [
  | inl small ↦ (48 + n, bs, rw small refl)
  | inr large ↦ (48 + n % 10, bs, rw large refl)
]
digits-suc (suc fuel) n bs = elim (Bool-cases (ltb n 10)) [
  | inl small ↦ (48 + n, bs, rw small refl)
  | inr large ↦
      let (b, cs, e) = digits-suc fuel (n / 10) ((48 + n % 10) ∷ bs) in (b, cs, rw large e)
]

-- A number within the bits is parsed as it was printed.
pub parse_uint-format_uint :
    (bits n : ℕ) → n < 10 ^ 20 → n < 2 ^ bits → parse_uint bits (format_uint n) ≡ some n
parse_uint-format_uint bits n h k =
    let (b, cs, e) = digits-suc 19 n [] in
    let nonempty : digits 20 n [] ≡ b ∷ cs = e in
    let value : value_from 0 (b ∷ cs) ≡ some n =
      ap (value_from 0) (sym nonempty) ∙ value_from-digits 20 n [] h in
    ap (parse_uint bits) nonempty ∙ rw (value, lt→ltb n (2 ^ bits) k) refl
