-- ===== src/Parsing/Units.antt =====
-- The units of `time.ParseDuration`.
use taifa_exchange.Base.{
  String, List, [], ◌∷◌, Option, none, some, ℕ, ◌==◌, if◌then◌else◌, ◌*◌, ◌^◌,
}

-- `unitMap`, which spells the micro sign in two ways.
abbrev pub unit_map : List (String × ℕ)
unit_map =
    ("ns", 1)
    ∷ ("us", 1000)
    ∷ ("µs", 1000)
    ∷ ("μs", 1000)
    ∷ ("ms", 10 ^ 6)
    ∷ ("s", 10 ^ 9)
    ∷ ("m", 60 * 10 ^ 9)
    ∷ ("h", 3600 * 10 ^ 9)
    ∷ []

unfoldable pub lookup_unit : List (String × ℕ) → String → Option ℕ
lookup_unit [] u = none
lookup_unit ((name, unit) ∷ units) u = if name == u then some unit else lookup_unit units u
