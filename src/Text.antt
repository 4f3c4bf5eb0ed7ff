-- ===== src/Text.antt =====
-- What the source uses of Go's `strings` and `unicode`: TrimSpace, ToUpper, Fields, EqualFold and
-- TrimRight. A text is a sequence of Unicode scalar values. The case table above U+007F is data
-- of Go's distribution and is a parameter, `Unicode`.
pub mod Trim
pub mod Case
pub mod Fields
use Prim.Native.String.{[], ◌∷◌}
use taifa_exchange.Base.{
  ℕ, zero, suc, ◌-◌, ◌≤◌, String, Char, code, ◌≡◌, Bool, ◌&&◌, ◌||◌, ltb, leb, eqb, if◌then◌else◌,
}

-- `unicode.IsSpace`: the runes with the property White_Space.
unfoldable pub is_space : Char → Bool
is_space c =
    let n = code c in
    (leb 9 n && leb n 13)
    || eqb n 32
    || eqb n 0x85
    || eqb n 0xa0
    || eqb n 0x1680
    || (leb 0x2000 n && leb n 0x200a)
    || eqb n 0x2028
    || eqb n 0x2029
    || eqb n 0x202f
    || eqb n 0x205f
    || eqb n 0x3000

unfoldable pub trim_left : String → String
trim_left [] = []
trim_left (c ∷ s) = if is_space c then trim_left s else c ∷ s

-- `c` in front of a text that is trimmed on its right.
unfoldable pub keep : Char → String → String
keep c [] = if is_space c then [] else c ∷ []
keep c (d ∷ s) = c ∷ d ∷ s

unfoldable pub trim_right : String → String
unfolding keep
trim_right [] = []
trim_right (c ∷ s) = keep c (trim_right s)

-- `strings.TrimSpace`
unfoldable pub trim_space : String → String
unfolding trim_left trim_right
trim_space s = trim_right (trim_left s)

-- The n-th character of a text, or `c` behind its end.
unfoldable pub nth : ℕ → String → Char → Char
nth n [] c = c
nth zero (d ∷ s) c = d
nth (suc n) (d ∷ s) c = nth n s c

abbrev is_lower : ℕ → Bool
is_lower n = leb b'a' n && leb n b'z'

unfoldable pub ascii_upper : Char → Char
unfolding nth
ascii_upper c = if is_lower (code c) then nth (code c - b'a') "ABCDEFGHIJKLMNOPQRSTUVWXYZ" c else c

-- `unicode.ToUpper`, with `upper` for the table lookup `unicode.To(unicode.UpperCase, r)`.
unfoldable pub upper_by : (Char → Char) → Char → Char
upper_by upper c = if ltb (code c) 128 then ascii_upper c else upper c

-- The upper-case table above U+007F, with what Unicode says of it: an upper-case letter is its
-- own upper case, and white space has no case.
pub record Unicode : Type 0 where
  pub upper : Char → Char
  pub upper_stable : (c : Char) → 128 ≤ code c → upper_by upper (upper c) ≡ upper c
  pub upper_space : (c : Char) → 128 ≤ code c → is_space (upper c) ≡ is_space c

module _ ⦃u : Unicode⦄ where
  -- `strings.ToUpper`
  unfoldable pub to_upper : String → String
  to_upper [] = []
  to_upper (c ∷ s) = upper_by u.upper c ∷ to_upper s

  -- `strings.ToUpper(strings.TrimSpace(value))`
  unfoldable pub normal : String → String
  normal s = to_upper (trim_space s)
