-- ===== src/Parsing/Duration/Fuel.antt =====
-- About `time.ParseDuration`: the fuel of its loop is enough, since every round takes a unit.
use Prim.Native.String.{[], ◌∷◌, count}
use text.Mathlib.TextLemmas.{length-cons, length-pos_iff}
use taifa_exchange.Base.{
  ℕ, zero, suc, ◌+◌, ◌*◌, ◌≤◌, ◌≡◌, ◌^◌, ◌%◌, arith, String, Option, none, some, Bool-cases, inl,
  inr, ◌∙◌, sym, ne_of_test, ◌==◌, if◌then◌else◌, Option-cases, ltb, Char, ap, code, eqb, not,
  subst, ◌&&◌, ◌/◌, ◌||◌,
}
use taifa_exchange.Parsing.Duration.{
  Fraction, fraction_digit, leading_fraction, leading_int, no_fraction, number_term, sum_terms,
  take_fraction, take_term, take_unit, unit_term, unit_value, before, has_fraction,
}
use taifa_exchange.Parsing.Duration.Laws.{sum_terms_step, sum_terms_stop, sum_terms-nil}
use taifa_exchange.Parsing.Integer.{digit, is_digit}
use taifa_exchange.Parsing.Units.{lookup_unit, unit_map}

-- The rest of the text, where there is one, has `n` characters at most.
abbrev RestWithin : ℕ → Option (ℕ × String) → Type 0
RestWithin n none = Unit
RestWithin n (some (v, s)) = count s ≤ n

RestWithin-mono : (m n : ℕ) (o : Option (ℕ × String)) → m ≤ n → RestWithin m o → RestWithin n o
RestWithin-mono m n none h k = tt
RestWithin-mono m n (some (v, s)) h k = omega arith

RestWithin-some :
    (n : ℕ) (o : Option (ℕ × String)) (v : ℕ) (s : String)
    → RestWithin n o
    → o ≡ some (v, s)
    → count s ≤ n
RestWithin-some n o v s h e = subst (RestWithin n) e h

leading_int-RestWithin : (s : String) (x : ℕ) → RestWithin (count s) (leading_int s x)
unfolding leading_int
leading_int-RestWithin [] x = omega arith
leading_int-RestWithin (c ∷ s) x =
    let y = x * 10 + digit c in
    elim (Bool-cases (is_digit c)) [
      | inr h ↦ rw h (omega arith)
      | inl h ↦ elim (Bool-cases (ltb (2 ^ 63 / 10) x || ltb (2 ^ 63) y)) [
        | inl k ↦ rw (h, k) tt
        | inr k ↦
            rw (h, k, length-cons c s)
              (RestWithin-mono (count s) (suc (count s)) (leading_int s y) (omega arith)
                (leading_int-RestWithin s y))
      ]
    ]

leading_fraction-count : (s : String) (f : Fraction) → count (leading_fraction s f).1 ≤ count s
unfolding leading_fraction
leading_fraction-count [] f = omega arith
leading_fraction-count (c ∷ s) f = elim (Bool-cases (is_digit c)) [
  | inl h ↦
      rw (h, length-cons c s) (omega (arith, leading_fraction-count s (fraction_digit f (digit c))))
  | inr h ↦ rw h (omega arith)
]

take_fraction-count : (s : String) → count (take_fraction s).1 ≤ count s
unfolding take_fraction
take_fraction-count [] = omega arith
take_fraction-count (c ∷ s) = ground (arith, length-cons c s, leading_fraction-count s no_fraction)

take_unit-count : (s : String) → count (take_unit s).0 + count (take_unit s).1 ≡ count s
unfolding take_unit
take_unit-count [] = omega arith
take_unit-count (c ∷ s) = elim (Bool-cases (eqb (code c) b'.' || is_digit c)) [
  | inl h ↦ rw h (omega arith)
  | inr h ↦
      rw (h, length-cons c s, length-cons c (take_unit s).0) (omega (arith, take_unit-count s))
]

before-RestWithin : (o : Option ℕ) (s : String) (n : ℕ) → count s ≤ n → RestWithin n (before s o)
before-RestWithin none s n h = tt
before-RestWithin (some w) s n h = h

unit_term-RestWithin :
    (v : ℕ) (f : Fraction) (s : String) (n : ℕ) → count s ≤ suc n → RestWithin n (unit_term v f s)
unfolding unit_term
unit_term-RestWithin v f s n h = elim (Bool-cases ((take_unit s).0 == "")) [
  | inl k ↦ rw k tt
  | inr k ↦
      let taken = (length-pos_iff {l = (take_unit s).0}).1 (ne_of_test (take_unit s).0 "" k) in
      rw k (
        before-RestWithin (unit_value v f (lookup_unit unit_map (take_unit s).0)) (take_unit s).1 n
          (omega (arith, take_unit-count s)))
]

number_term-RestWithin :
    (s : String) (o : Option (ℕ × String)) (n : ℕ)
    → RestWithin (suc n) o
    → RestWithin n (number_term s o)
unfolding number_term
number_term-RestWithin s none n h = tt
number_term-RestWithin s (some (v, s')) n h =
    elim (Bool-cases (eqb (count s) (count s') && not (has_fraction s'))) [
      | inl k ↦ rw k tt
      | inr k ↦ rw k (
          unit_term-RestWithin v (take_fraction s').0 (take_fraction s').1 n
            (omega (arith, take_fraction-count s')))
    ]

-- A round leaves fewer characters than it begins with.
take_term-RestWithin : (c : Char) (s : String) → RestWithin (count s) (take_term (c ∷ s))
unfolding take_term
take_term-RestWithin c s =
    number_term-RestWithin (c ∷ s) (leading_int (c ∷ s) 0) (count s)
      (rw (← length-cons c s) (leading_int-RestWithin (c ∷ s) 0))

-- Beyond one unit for each character more fuel changes nothing.
pub sum_terms_enough :
    (fuel more : ℕ) (s : String) (d : ℕ)
    → count s ≤ fuel
    → fuel ≤ more
    → sum_terms more s d ≡ sum_terms fuel s d
unfolding sum_terms
sum_terms_enough fuel more [] d h k = sum_terms-nil more d ∙ sym (sum_terms-nil fuel d)
sum_terms_enough zero more (c ∷ s) d h k = absurd (omega (arith, length-cons c s))
sum_terms_enough (suc fuel) zero (c ∷ s) d h k = absurd (omega arith)
sum_terms_enough (suc fuel) (suc more) (c ∷ s) d h k = elim (Option-cases (take_term (c ∷ s))) [
  | inl e ↦ sum_terms_stop more c s d e ∙ sym (sum_terms_stop fuel c s d e)
  | inr ((v, rest), e) ↦
      let d' = (d + v) % 2 ^ 64 in
      let fewer =
        RestWithin-some (count s) (take_term (c ∷ s)) v rest (take_term-RestWithin c s) e in
      let later =
        sum_terms_enough fuel more rest d' (omega (arith, length-cons c s)) (omega arith) in
      sum_terms_step more c s d v rest e
      ∙ ap (λ (o : Option ℕ). if ltb (2 ^ 63) d' then none else o) later
      ∙ sym (sum_terms_step fuel c s d v rest e)
]
