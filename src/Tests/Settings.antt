-- ===== src/Tests/Settings.antt =====
-- Runs of internal/config/config.go, and of the parsers that it calls.
use taifa_exchange.Base.{
  [], ◌∷◌, ◌≡◌, arith, if◌then◌else◌, map, neg, none, pos, refl, some, ℤ, ◌==◌, Fits, with_sign,
  ◌*◌, false, ne_of_test, ◌^◌,
}
use taifa_exchange.Config.{Getenv, env_duration, env_int32, load}
use taifa_exchange.Config.Laws.{InRange, env_duration-whole, env_int32_lem, load-InRange}
use taifa_exchange.Parsing.Duration.{parse_duration, sum_terms}
use taifa_exchange.Parsing.Duration.Fuel.{sum_terms_enough}
use taifa_exchange.Parsing.Integer.{parse_int, take_sign, is_digit}
use taifa_exchange.Parsing.Integer.Laws.{Literal}
use taifa_exchange.Parsing.Units.{lookup_unit}

-- An environment with one number that is out of range, one that fits, and one duration.
abbrev settings : Getenv
settings key =
    if key == "TAIFA_EXCHANGE_DATABASE_MIN_CONNS"
    then "2147483648"
    else if key == "TAIFA_EXCHANGE_DATABASE_MAX_CONNS"
    then "-2147483648"
    else if key == "TAIFA_EXCHANGE_SEED_TIMEOUT"
    then "90s"
    else ""

integers :
    map (parse_int 32) ("0012" ∷ "+7" ∷ "-5" ∷ "2147483647" ∷ "" ∷ "-" ∷ "1_0" ∷ " 1" ∷ [])
    ≡ some (pos 12)
      ∷ some (pos 7)
      ∷ some (neg 5)
      ∷ some (pos 2147483647)
      ∷ none
      ∷ none
      ∷ none
      ∷ none
      ∷ []
unfolding parse_int is_digit
integers = refl

durations :
    map parse_duration
      ("1.5s" ∷ "-1h30m0.25ms" ∷ "+0" ∷ "0.3h" ∷ "1µs" ∷ "1" ∷ ".s" ∷ "9223372036854775808ns" ∷ [])
    ≡ some (pos 1500000000)
      ∷ some (neg 5400000250000)
      ∷ some (pos 0)
      ∷ some (pos 1080000000000)
      ∷ some (pos 1000)
      ∷ none
      ∷ none
      ∷ none
      ∷ []
unfolding parse_duration is_digit
durations = refl

defaults : (load settings).database.min_conns ≡ pos 1
unfolding load parse_int is_digit
defaults = refl

load-InRange_example : InRange (load settings)
load-InRange_example = load-InRange settings

env_int32_lem_example :
    ((z : ℤ)
      → Literal (settings "TAIFA_EXCHANGE_DATABASE_MAX_CONNS") z
      → Fits 31 z
      → env_int32 settings "TAIFA_EXCHANGE_DATABASE_MAX_CONNS" (pos 5) ≡ z)
    × (((z : ℤ) → Literal (settings "TAIFA_EXCHANGE_DATABASE_MAX_CONNS") z → ¬ Fits 31 z)
        → env_int32 settings "TAIFA_EXCHANGE_DATABASE_MAX_CONNS" (pos 5) ≡ pos 5)
env_int32_lem_example = env_int32_lem settings "TAIFA_EXCHANGE_DATABASE_MAX_CONNS" (pos 5)

env_duration-whole_example :
    let z = with_sign false (90 * 10 ^ 9) in
    (Fits 63 z → env_duration settings "TAIFA_EXCHANGE_SEED_TIMEOUT" (pos 1) ≡ z)
    × (¬ Fits 63 z → env_duration settings "TAIFA_EXCHANGE_SEED_TIMEOUT" (pos 1) ≡ pos 1)
unfolding take_sign lookup_unit is_digit
env_duration-whole_example =
    env_duration-whole settings "TAIFA_EXCHANGE_SEED_TIMEOUT" (pos 1) "90" "s" false 90 (10 ^ 9)
      refl (ne_of_test "90" "" refl, (refl, (refl, tt)), refl) refl

sum_terms_enough_example : sum_terms 9 "1h5m" 0 ≡ sum_terms 4 "1h5m" 0
sum_terms_enough_example = sum_terms_enough 4 9 "1h5m" 0 (omega arith) (omega arith)
