-- ===== src/Parsing/Duration.antt =====
-- `time.ParseDuration`, in nanoseconds. An error is `none`. The sum of the terms wraps at 64 bits;
-- the other sums and products are taken only behind a test that keeps them below.
pub mod Laws
pub mod Fuel
pub mod Pieces
pub mod Whole
use Prim.Native.String.{[], ◌∷◌, count}
use taifa_exchange.Base.{
  ℕ, zero, suc, ◌+◌, ◌*◌, ◌^◌, ◌/◌, ◌-◌, code, Bool, true, false, ◌||◌, ◌&&◌, not, ltb, eqb,
  if◌then◌else◌, Option, none, some, String, ℤ, pos, neg, ◌==◌, List, ◌%◌,
}
use taifa_exchange.Parsing.Integer.{digit, is_digit, take_sign}
use taifa_exchange.Parsing.Float.{fraction_of, nearest_whole}
use taifa_exchange.Parsing.Units.{lookup_unit, unit_map}

-- `leadingInt`: the number that a text begins with, and the rest.
unfoldable pub leading_int : String → ℕ → Option (ℕ × String)
leading_int [] x = some (x, [])
leading_int (c ∷ s) x =
    let y = x * 10 + digit c in
    let rest = leading_int s y in
    if not (is_digit c)
    then some (x, c ∷ s)
    else if ltb (2 ^ 63 / 10) x || ltb (2 ^ 63) y
    then none
    else rest

-- The variables of the loop of `leadingFraction`.
pub record Fraction : Type 0 where
  pub x : ℕ
  pub scale : ℕ
  pub overflow : Bool

unfoldable pub fraction_digit : Fraction → ℕ → Fraction
unfolding nearest_whole
fraction_digit f d =
    let y = f.x * 10 + d in
    if f.overflow
    then f
    else if ltb ((2 ^ 63 - 1) / 10) f.x || ltb (2 ^ 63) y
    then record f { overflow = true }
    else record f { x = y; scale = nearest_whole (f.scale * 10) }

-- `leadingFraction`
unfoldable pub leading_fraction : String → Fraction → Fraction × String
unfolding fraction_digit
leading_fraction [] f = (f, [])
leading_fraction (c ∷ s) f =
    let rest = leading_fraction s (fraction_digit f (digit c)) in
    if is_digit c then rest else (f, c ∷ s)

abbrev pub no_fraction : Fraction
no_fraction = record { x = 0; scale = 1; overflow = false }

-- `(\.[0-9]*)?`
unfoldable pub take_fraction : String → Fraction × String
unfolding leading_fraction
take_fraction [] = (no_fraction, [])
take_fraction (c ∷ s) =
    if eqb (code c) b'.' then leading_fraction s no_fraction else (no_fraction, c ∷ s)

-- Whether digits stand behind the point.
unfoldable pub has_fraction : String → Bool
unfolding leading_fraction
has_fraction [] = false
has_fraction (c ∷ s) =
    eqb (code c) b'.' && not (eqb (count s) (count (leading_fraction s no_fraction).1))

-- The characters up to a point or a digit, and the rest.
unfoldable pub take_unit : String → String × String
take_unit [] = ([], [])
take_unit (c ∷ s) =
    let (unit, rest) = take_unit s in
    if eqb (code c) b'.' || is_digit c then ([], c ∷ s) else (c ∷ unit, rest)

-- The value of one term, `v` and a fraction of a unit.
unfoldable pub scaled : ℕ → Fraction → ℕ → Option ℕ
unfolding fraction_of
scaled v f unit =
    if ltb (2 ^ 63 / unit) v
    then none
    else let w = if ltb 0 f.x then v * unit + fraction_of f.x unit f.scale else v * unit in
      if ltb 0 f.x && ltb (2 ^ 63) w then none else some w

-- A term with the text behind it.
abbrev pub before : String → Option ℕ → Option (ℕ × String)
before rest none = none
before rest (some w) = some (w, rest)

abbrev pub unit_value : ℕ → Fraction → Option ℕ → Option ℕ
unit_value v f none = none
unit_value v f (some unit) = scaled v f unit

-- The unit of a term behind its number.
unfoldable pub unit_term : ℕ → Fraction → String → Option (ℕ × String)
unfolding take_unit lookup_unit scaled
unit_term v f s =
    let (u, rest) = take_unit s in
    if u == "" then none else before rest (unit_value v f (lookup_unit unit_map u))

-- What follows the digits in front of the point. What begins with neither a digit nor a point has no
-- digits at all.
unfoldable pub number_term : String → Option (ℕ × String) → Option (ℕ × String)
unfolding take_fraction has_fraction unit_term
number_term s none = none
number_term s (some (v, s')) =
    let (f, s'') = take_fraction s' in
    if eqb (count s) (count s') && not (has_fraction s') then none else unit_term v f s''

-- One round of the loop of ParseDuration.
unfoldable pub take_term : String → Option (ℕ × String)
unfolding leading_int number_term
take_term s = number_term s (leading_int s 0)

-- The loop, on fuel: every round takes a character at least.
unfoldable pub sum_terms : ℕ → String → ℕ → Option ℕ
unfolding take_term
sum_terms fuel [] d = some d
sum_terms zero (c ∷ s) d = none
sum_terms (suc fuel) (c ∷ s) d = elim (take_term (c ∷ s)) [
  | none ↦ none
  | some (v, rest) ↦
      let d' = (d + v) % 2 ^ 64 in if ltb (2 ^ 63) d' then none else sum_terms fuel rest d'
]

abbrev pub signed_duration : Bool → ℕ → Option ℤ
signed_duration true d = some (neg d)
signed_duration false d = if ltb (2 ^ 63 - 1) d then none else some (pos d)

abbrev pub signed_result : Bool → Option ℕ → Option ℤ
signed_result minus none = none
signed_result minus (some d) = signed_duration minus d

-- `time.ParseDuration`
unfoldable pub parse_duration : String → Option ℤ
unfolding sum_terms take_sign
parse_duration s =
    let (minus, s') = take_sign s in
    if s' == "0"
    then some (pos 0)
    else if s' == ""
    then none
    else signed_result minus (sum_terms (count s') s' 0)
