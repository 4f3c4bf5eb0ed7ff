-- ===== src/Parsing/Duration/Whole.antt =====
-- About `time.ParseDuration`: a whole number of one unit.
use Prim.Native.String.{count, ◌++◌ as ◌⋯◌}
use text.Mathlib.TextLemmas.{length-append, length-cons, length-pos_iff}
use taifa_exchange.Base.{
  ℕ, ◌≤◌, ◌<◌, ◌^◌, ◌+◌, ◌*◌, ◌≡◌, arith, refl, String, none, some, false, ltb, if◌then◌else◌,
  Bool-cases, inl, inr, ◌==◌, eqb, ◌≢◌, ap, ◌∙◌, Option, ◌%◌, Bool, Fits, ne_of_test, test_of_ne,
  true, ℤ, ◌↔◌, sym, with_sign,
}
use taifa_exchange.Parsing.Duration.{
  no_fraction, scaled, take_term, unit_term, number_term, before, sum_terms, parse_duration,
  signed_result,
}
use taifa_exchange.Parsing.Integer.{take_sign}
use taifa_exchange.Parsing.Duration.Pieces.{
  IsUnit, unit_map-IsUnit, lookup_unit_lem, leading_int-append, leading_int-append_beyond,
}
use taifa_exchange.Parsing.Integer.Laws.{AllDigits, value, Spells}
use native.Mathlib.Nat.{le-div_iff_mul-le, le-mul_of_pos_right}
use taifa_exchange.Parsing.Units.{lookup_unit, unit_map}
use taifa_exchange.Parsing.Duration.Laws.{sum_terms-nil, sum_terms_step, sum_terms_stop, test_of_le}

-- The value of a whole number of units, if it is one of 63 bits, or 2 ^ 63.
abbrev whole : ℕ → ℕ → Option ℕ
whole n unit = if ltb (2 ^ 63) (n * unit) then none else some (n * unit)

-- The first term of a text that is a whole number of a unit.
module _ (s u : String) (unit : ℕ) (all : AllDigits s) (not_empty : s ≢ "")
    (is_unit : IsUnit (u, unit)) where
  not_equal_counts : eqb (count (s ⋯ u)) (count u) ≡ false
  not_equal_counts = ground (arith, length-append s u, (length-pos_iff {l = s}).1 not_empty)

  -- The unit behind the number.
  unit_term-unit :
      (v : ℕ)
      → lookup_unit unit_map u ≡ some unit
      → unit_term v no_fraction u ≡ before "" (scaled v no_fraction unit)
  unfolding unit_term
  unit_term-unit v h = rw (is_unit.0) (rw (is_unit.1, h) refl)

  scaled-unit : (v : ℕ) → scaled v no_fraction unit ≡ whole v unit
  unfolding scaled
  scaled-unit v = ground (arith, le-div_iff_mul-le {k = unit} {x = v} {y = 2 ^ 63} is_unit.5)

  take_term_fits :
      lookup_unit unit_map u ≡ some unit
      → value 0 s ≤ 2 ^ 63
      → take_term (s ⋯ u) ≡ before "" (whole (value 0 s) unit)
  unfolding take_term number_term
  take_term_fits found fits =
      rw (leading_int-append u is_unit.2 s 0 all fits, not_equal_counts, is_unit.3)
        (unit_term-unit (value 0 s) found ∙ ap (before "") (scaled-unit (value 0 s)))

  take_term_beyond : 2 ^ 63 < value 0 s → take_term (s ⋯ u) ≡ none
  unfolding take_term number_term
  take_term_beyond beyond =
      rw (leading_int-append_beyond u is_unit.2 s 0 all (omega arith) beyond) refl

sum_terms-one :
    (t : String) (o : Option ℕ)
    → t ≢ ""
    → take_term t ≡ before "" o
    → ((w : ℕ) → o ≡ some w → w ≤ 2 ^ 63)
    → sum_terms (count t) t 0 ≡ o
unfolding sum_terms
sum_terms-one String.[] o not_empty h fits = absurd (not_empty refl)
sum_terms-one (String.◌∷◌ c s) none not_empty h fits =
    rw (length-cons c s) (sum_terms_stop (count s) c s 0 h)
sum_terms-one (String.◌∷◌ c s) (some w) not_empty h fits =
    let small : (0 + w) % 2 ^ 64 ≡ w = omega (arith, fits w refl) in
    rw (length-cons c s) (
      sum_terms_step (count s) c s 0 w "" h
      ∙ rw small (rw (test_of_le (2 ^ 63) w (fits w refl)) (sum_terms-nil (count s) w)))

whole_fits : (n unit w : ℕ) → whole n unit ≡ some w → w ≤ 2 ^ 63
whole_fits n unit w h = ground arith

whole_beyond : (n unit : ℕ) → 0 < unit → 2 ^ 63 < n → whole n unit ≡ none
whole_beyond n unit positive beyond = ground (arith, le-mul_of_pos_right n positive)

signed_result_iff :
    (minus : Bool) (n unit : ℕ) (z : ℤ)
    → (signed_result minus (whole n unit) ≡ some z)
      ↔ ((z ≡ (with_sign minus (n * unit))) × Fits 63 z)
signed_result_iff true n unit z = (λ h. ground arith, λ h. ground arith)
signed_result_iff false n unit z = (λ h. ground arith, λ h. ground arith)

count_pos : (s : String) → s ≢ "" → 0 < count s
count_pos s h = (length-pos_iff {l = s}).1 h

-- Digits and a unit are two characters at least.
two_parts : (s u : String) → s ≢ "" → (u == "") ≡ false → 2 ≤ count (s ⋯ u)
two_parts s u h k = omega (arith, length-append s u, count_pos s h, count_pos u (ne_of_test u "" k))

longer : (s t : String) → count t < count s → (s == t) ≡ false
longer s t h = test_of_ne s t (λ e. ground (arith, ap count e))

module _ (t s u : String) (minus : Bool) (n unit : ℕ) (split : take_sign t ≡ (minus, s ⋯ u))
    (spelt : Spells s n) (found : lookup_unit unit_map u ≡ some unit) where
  is_unit : IsUnit (u, unit)
  is_unit = lookup_unit_lem IsUnit unit_map u unit unit_map-IsUnit found

  take_term-whole : take_term (s ⋯ u) ≡ before "" (whole n unit)
  take_term-whole = elim (Bool-cases (ltb (2 ^ 63) (value 0 s))) [
    | inl h ↦
        take_term_beyond s u unit spelt.1 spelt.0 is_unit (ground arith)
        ∙ ap (before "") (
            sym (
              ap (λ (k : ℕ). whole k unit) spelt.2
              ∙ whole_beyond (value 0 s) unit is_unit.5 (ground arith)))
    | inr h ↦
        take_term_fits s u unit spelt.1 spelt.0 is_unit found (ground arith)
        ∙ ap (λ (k : ℕ). before "" (whole k unit)) (sym spelt.2)
  ]

  parse_duration-whole : parse_duration t ≡ signed_result minus (whole n unit)
  unfolding parse_duration
  parse_duration-whole =
      let long = two_parts s u spelt.0 is_unit.1 in
      let not_zero : ((s ⋯ u) == "0") ≡ false = longer (s ⋯ u) "0" (omega arith) in
      let not_blank : ((s ⋯ u) == "") ≡ false = longer (s ⋯ u) "" (omega arith) in
      let sum =
        sum_terms-one (s ⋯ u) (whole n unit) (ne_of_test (s ⋯ u) "" not_blank) take_term-whole
          (whole_fits n unit) in
      rw (split, not_zero, not_blank) (ap (signed_result minus) sum)

  -- A text of an optional sign, digits that spell a number and a unit of unitMap is the duration of
  -- that many units, if this fits into 64 bits, and an error if not.
  pub parse_duration-whole_iff :
      (z : ℤ) → (parse_duration t ≡ some z) ↔ ((z ≡ (with_sign minus (n * unit))) × Fits 63 z)
  parse_duration-whole_iff z = rw parse_duration-whole (signed_result_iff minus n unit z)
