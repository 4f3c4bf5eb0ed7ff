-- ===== src/Parsing/Duration/Pieces.antt =====
-- About `time.ParseDuration`: the digits and the unit that a text consists of.
use Prim.Native.String.{◌++◌ as ◌⋯◌}
use text.Mathlib.TextLemmas.{nil-append, cons-append}
use taifa_exchange.Base.{
  ℕ, ◌≤◌, ◌<◌, ◌^◌, ◌+◌, ◌*◌, ◌≡◌, arith, refl, String, none, some, false, All, List, [], ◌∷◌,
  Bool-cases, inl, inr, eq_iff, ◌==◌, ap₂, subst,
}
use taifa_exchange.Parsing.Duration.{
  has_fraction, leading_int, no_fraction, take_fraction, take_unit,
}
use taifa_exchange.Parsing.Integer.{digit, is_digit}
use taifa_exchange.Parsing.Integer.Laws.{AllDigits, le-value, value}
use taifa_exchange.Parsing.Units.{lookup_unit, unit_map}

-- What a unit is to the functions that take a text apart: it holds no digit and no point.
abbrev pub IsUnit : String × ℕ → Type 0
IsUnit (u, unit) =
    (take_unit u ≡ (u, ""))
    × ((u == "") ≡ false)
    × ((n : ℕ) → leading_int u n ≡ some (n, u))
    × (take_fraction u ≡ (no_fraction, u))
    × (has_fraction u ≡ false)
    × (0 < unit)

pub unit_map-IsUnit : All IsUnit unit_map
unfolding take_unit leading_int take_fraction has_fraction is_digit
unit_map-IsUnit = (
  (refl, refl, λ n. refl, refl, refl, omega arith),
  (
    (refl, refl, λ n. refl, refl, refl, omega arith),
    (
      (refl, refl, λ n. refl, refl, refl, omega arith),
      (
        (refl, refl, λ n. refl, refl, refl, omega arith),
        (
          (refl, refl, λ n. refl, refl, refl, omega arith),
          (
            (refl, refl, λ n. refl, refl, refl, omega arith),
            (
              (refl, refl, λ n. refl, refl, refl, omega arith),
              ((refl, refl, λ n. refl, refl, refl, omega arith), tt),
            ),
          ),
        ),
      ),
    ),
  ),
)

pub lookup_unit_lem :
    (P : String × ℕ → Type 0) (units : List (String × ℕ)) (u : String) (unit : ℕ)
    → All P units
    → lookup_unit units u ≡ some unit
    → P (u, unit)
unfolding lookup_unit
lookup_unit_lem P [] u unit all h = cc
lookup_unit_lem P ((name, n) ∷ units) u unit all h = elim (Bool-cases (name == u)) [
  | inl e ↦
      subst P (ap₂ (λ (x : String) (y : ℕ). (x, y)) ((eq_iff name u).0 e) (ground arith)) all.0
  | inr e ↦ lookup_unit_lem P units u unit all.1 (ground arith)
]

module _ (u : String) (rest : (n : ℕ) → leading_int u n ≡ some (n, u)) where
  -- Digits that spell a number of 63 bits, or 2 ^ 63, are read.
  pub leading_int-append :
      (s : String) (n : ℕ)
      → AllDigits s
      → value n s ≤ 2 ^ 63
      → leading_int (s ⋯ u) n ≡ some (value n s, u)
  unfolding leading_int
  leading_int-append String.[] n all fits = rw nil-append (rest n)
  leading_int-append (String.◌∷◌ c s) n all fits =
      let m = n * 10 + digit c in
      rw (cons-append, all.0) (ground (arith, le-value s m, leading_int-append s m all.1 fits))

  -- Other digits are refused.
  pub leading_int-append_beyond :
      (s : String) (n : ℕ)
      → AllDigits s
      → n ≤ 2 ^ 63
      → 2 ^ 63 < value n s
      → leading_int (s ⋯ u) n ≡ none
  unfolding leading_int
  leading_int-append_beyond String.[] n all fits beyond = absurd (omega arith)
  leading_int-append_beyond (String.◌∷◌ c s) n all fits beyond =
      let m = n * 10 + digit c in
      rw (cons-append, all.0) (ground (arith, leading_int-append_beyond s m all.1))
