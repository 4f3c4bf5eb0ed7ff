-- ===== src/Parsing/Integer/Laws.antt =====
-- About `strconv.ParseInt`: which texts it accepts, and what it returns.
use Prim.Native.String.{[], ◌∷◌}
use taifa_exchange.Base.{
  ℕ, ◌+◌, ◌*◌, ◌≤◌, ◌≡◌, ◌↔◌, arith, String, true, some, Bool, false, refl, ℤ, ◌-◌, ◌<◌, ◌^◌, ◌≢◌,
  Fits, suc, zero, Option, ap, none, sym, ◌∙◌, with_sign,
}
use taifa_exchange.Parsing.Integer.{
  digit, is_digit, scan_digits, parse_uint, take_sign, signed, parse_int,
}

abbrev pub AllDigits : String → Type 0
AllDigits [] = Unit
AllDigits (c ∷ s) = (is_digit c ≡ true) × AllDigits s

-- The number that digits spell behind `n`, with no bound.
abbrev pub value : ℕ → String → ℕ
value n [] = n
value n (c ∷ s) = value (n * 10 + digit c) s

pub le-value : (s : String) (n : ℕ) → n ≤ value n s
le-value [] n = omega arith
le-value (c ∷ s) n = omega (arith, le-value s (n * 10 + digit c))

pub scan_digits_iff :
    (limit : ℕ) (s : String) (n r : ℕ)
    → n ≤ limit
    → (scan_digits limit s n ≡ some r) ↔ (AllDigits s × (r ≡ value n s) × (r ≤ limit))
unfolding scan_digits
scan_digits_iff limit [] n r fits = (λ h. ground arith, λ h. ground arith)
scan_digits_iff limit (c ∷ s) n r fits =
    let m = n * 10 + digit c in
    (
      λ h. ground (arith, scan_digits_iff limit s m r),
      λ h. ground (arith, scan_digits_iff limit s m r, le-value s m),
    )

pow_pos : (w : ℕ) → 0 < 2 ^ w
pow_pos zero = omega arith
pow_pos (suc w) = omega (arith, pow_pos w)

-- An unsigned literal: digits, one at least, that spell `n`.
abbrev pub Spells : String → ℕ → Type 0
Spells s n = (s ≢ "") × AllDigits s × (n ≡ value 0 s)

parse_uint_iff :
    (bits : ℕ) (s : String) (n : ℕ)
    → (parse_uint bits s ≡ some n) ↔ (Spells s n × (n ≤ 2 ^ bits - 1))
unfolding parse_uint
parse_uint_iff bits [] n = (λ h. cc, λ h. absurd (h.0.0 refl))
parse_uint_iff bits (c ∷ s) n =
    let at = scan_digits_iff (2 ^ bits - 1) (c ∷ s) 0 n (omega arith) in
    (
      λ h. let (all, same, fits) = at.0 h in (((λ e. cc), all, same), fits),
      λ h. at.1 (h.0.1, h.0.2, h.1),
    )

-- An integer literal: an optional sign and digits, which stand for `z`.
pub record Literal (s : String) (z : ℤ) : Type 0 where
  pub minus : Bool
  pub digits : String
  pub magnitude : ℕ
  pub split : take_sign s ≡ (minus, digits)
  pub spelt : Spells digits magnitude
  pub meant : z ≡ (with_sign minus magnitude)

signed_iff :
    (w : ℕ) (minus : Bool) (n : ℕ) (z : ℤ)
    → (signed (2 ^ w) minus (some n) ≡ some z) ↔ ((z ≡ (with_sign minus n)) × Fits w z)
signed_iff w false n z = (λ h. ground (arith, pow_pos w), λ h. ground (arith, pow_pos w))
signed_iff w true n z = (λ h. ground (arith, pow_pos w), λ h. ground (arith, pow_pos w))

signed-some :
    (cutoff : ℕ) (minus : Bool) (o : Option ℕ) (z : ℤ)
    → signed cutoff minus o ≡ some z
    → (n : ℕ) × (o ≡ some n) × (signed cutoff minus (some n) ≡ some z)
signed-some cutoff minus none z h = cc
signed-some cutoff minus (some n) z h = (n, refl, h)

-- A number that fits beside the sign is not refused by ParseUint.
unsigned-Fits :
    (w : ℕ) (minus : Bool) (n : ℕ) (z : ℤ) → z ≡ (with_sign minus n) → Fits w z → n ≤ 2 ^ suc w - 1
unsigned-Fits w false n z e fits = ground (arith, pow_pos w)
unsigned-Fits w true n z e fits = ground (arith, pow_pos w)

parse_int-signed :
    (w : ℕ) (s : String)
    → parse_int (suc w) s ≡ signed (2 ^ w) (take_sign s).0 (parse_uint (suc w) (take_sign s).1)
unfolding parse_int
parse_int-signed w s =
    ap (λ (n : ℕ). signed (2 ^ n) (take_sign s).0 (parse_uint (suc w) (take_sign s).1))
      (omega arith)

module _ (w : ℕ) (s : String) (z : ℤ) where
  parse_int_sound : parse_int (suc w) s ≡ some z → Literal s z × Fits w z
  parse_int_sound h =
      let (n, found, k) =
        signed-some (2 ^ w) (take_sign s).0 (parse_uint (suc w) (take_sign s).1) z
          (sym (parse_int-signed w s) ∙ h) in
      let (meant, fits) = (signed_iff w (take_sign s).0 n z).0 k in
      (
        record {
          minus = (take_sign s).0;
          digits = (take_sign s).1;
          magnitude = n;
          split = refl;
          spelt = ((parse_uint_iff (suc w) (take_sign s).1 n).0 found).0;
          meant = meant;
        },
        fits,
      )

  parse_int_complete : Literal s z → Fits w z → parse_int (suc w) s ≡ some z
  parse_int_complete l fits =
      let found =
        (parse_uint_iff (suc w) l.digits l.magnitude).1
          (l.spelt, unsigned-Fits w l.minus l.magnitude z l.meant fits) in
      parse_int-signed w s
      ∙ rw l.split (rw found ((signed_iff w l.minus l.magnitude z).1 (l.meant, fits)))

  -- ParseInt for w + 1 bits returns `z` exactly if the text is an integer literal for `z` and `z`
  -- fits.
  pub parse_int_iff : (parse_int (suc w) s ≡ some z) ↔ (Literal s z × Fits w z)
  parse_int_iff = (parse_int_sound, λ h. parse_int_complete h.0 h.1)
