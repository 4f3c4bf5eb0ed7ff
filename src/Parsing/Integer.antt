-- ===== src/Parsing/Integer.antt =====
-- `strconv.ParseInt(s, 10, bits)`. An error is `none`.
pub mod Laws
use Prim.Native.String.{[], ◌∷◌}
use taifa_exchange.Base.{
  ℕ, ◌+◌, ◌-◌, ◌*◌, ◌^◌, Char, code, Bool, true, false, ◌&&◌, not, leb, ltb, eqb, if◌then◌else◌,
  Option, none, some, String, ℤ, pos, neg,
}
use taifa_exchange.Parsing.Float.{bits}

unfoldable pub is_digit : Char → Bool
is_digit c = leb b'0' (code c) && leb (code c) b'9'

abbrev pub digit : Char → ℕ
digit c = code c - b'0'

-- The loop of `strconv.ParseUint`, on the number read so far; the largest value is `limit`. A
-- product or a sum beyond 64 bits is beyond `limit` too.
unfoldable pub scan_digits : ℕ → String → ℕ → Option ℕ
scan_digits limit [] n = some n
scan_digits limit (c ∷ s) n =
    let m = n * 10 + digit c in
    let rest = scan_digits limit s m in
    if not (is_digit c) then none else if ltb limit m then none else rest

-- `strconv.ParseUint(s, 10, bits)`
unfoldable pub parse_uint : ℕ → String → Option ℕ
unfolding scan_digits
parse_uint bits [] = none
parse_uint bits (c ∷ s) = scan_digits (2 ^ bits - 1) (c ∷ s) 0

-- The sign in front of a number, if there is one: whether it is a minus, and the rest.
unfoldable pub take_sign : String → Bool × String
take_sign [] = (false, [])
take_sign (c ∷ s) =
    if eqb (code c) b'+'
    then (false, s)
    else if eqb (code c) b'-'
    then (true, s)
    else (false, c ∷ s)

-- The tests behind ParseUint, with `cutoff` = 2 ^ (bits - 1).
abbrev pub signed : ℕ → Bool → Option ℕ → Option ℤ
signed cutoff minus none = none
signed cutoff false (some n) = if leb cutoff n then none else some (pos n)
signed cutoff true (some n) = if ltb cutoff n then none else some (neg n)

unfoldable pub parse_int : ℕ → String → Option ℤ
unfolding take_sign parse_uint
parse_int bits s =
    let (minus, digits) = take_sign s in signed (2 ^ (bits - 1)) minus (parse_uint bits digits)
