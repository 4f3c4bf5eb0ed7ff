-- ===== src/Config/Laws.antt =====
-- About internal/config/config.go: what Load returns, whatever the environment holds.
use Prim.Native.String.{◌++◌ as ◌⋯◌}
use taifa_exchange.Base.{
  String, ℤ, Fits, Option, none, some, ◌≡◌, inl, inr, arith, refl, ℕ, Bool-cases, ◌==◌, Bool, ap,
  eq_iff, subst, sym, ◌*◌, with_sign,
}
use taifa_exchange.Config.{Config, Getenv, load, env_duration, env_int32, or_else}
use taifa_exchange.Parsing.Duration.{parse_duration}
use taifa_exchange.Parsing.Duration.Laws.{parse_duration-Fits, none-some}
use taifa_exchange.Parsing.Integer.{parse_int, take_sign}
use taifa_exchange.Parsing.Integer.Laws.{parse_int_iff, Literal, Spells}
use taifa_exchange.Parsing.Duration.Whole.{parse_duration-whole_iff}
use taifa_exchange.Parsing.Units.{lookup_unit, unit_map}

or_else-Fits :
    (w : ℕ) (fallback : ℤ) (o : Option ℤ)
    → Fits w fallback
    → ((z : ℤ) → o ≡ some z → Fits w z)
    → Fits w (or_else fallback o)
or_else-Fits w fallback none h k = h
or_else-Fits w fallback (some z) h k = k z refl

module _ (getenv : Getenv) (key : String) (fallback : ℤ) where
  env_duration-Fits : Fits 63 fallback → Fits 63 (env_duration getenv key fallback)
  unfolding env_duration
  env_duration-Fits h = elim (Bool-cases (getenv key == "")) [
    | inl e ↦ rw e h
    | inr e ↦ rw e (
        or_else-Fits 63 fallback (parse_duration (getenv key)) h (parse_duration-Fits (getenv key)))
  ]

  env_int32-Fits : Fits 31 fallback → Fits 31 (env_int32 getenv key fallback)
  unfolding env_int32
  env_int32-Fits h = elim (Bool-cases (getenv key == "")) [
    | inl e ↦ rw e h
    | inr e ↦ rw e (
        or_else-Fits 31 fallback (parse_int 32 (getenv key)) h
          (λ z k. ((parse_int_iff 31 (getenv key) z).0 k).1))
  ]

-- The numbers of connections are values of an int32, and the durations of an int64.
pub record InRange (c : Config) : Type 0 where
  pub min_conns : Fits 31 c.database.min_conns
  pub max_conns : Fits 31 c.database.max_conns
  pub connect_timeout : Fits 63 c.database.connect_timeout
  pub read_timeout : Fits 63 c.http.read_timeout
  pub write_timeout : Fits 63 c.http.write_timeout
  pub idle_timeout : Fits 63 c.http.idle_timeout
  pub shutdown_timeout : Fits 63 c.http.shutdown_timeout
  pub taifa_id_timeout : Fits 63 c.taifa_id.timeout
  pub seed_timeout : Fits 63 c.seed.timeout

-- Whatever the environment holds, the numbers of connections that Load returns are values of an
-- int32 and its durations are values of an int64.
pub load-InRange : (getenv : Getenv) → InRange (load getenv)
unfolding load
load-InRange getenv = record {
  min_conns = env_int32-Fits getenv _ _ (omega arith);
  max_conns = env_int32-Fits getenv _ _ (omega arith);
  connect_timeout = env_duration-Fits getenv _ _ (omega arith);
  read_timeout = env_duration-Fits getenv _ _ (omega arith);
  write_timeout = env_duration-Fits getenv _ _ (omega arith);
  idle_timeout = env_duration-Fits getenv _ _ (omega arith);
  shutdown_timeout = env_duration-Fits getenv _ _ (omega arith);
  taifa_id_timeout = env_duration-Fits getenv _ _ (omega arith);
  seed_timeout = env_duration-Fits getenv _ _ (omega arith);
}

-- No text with an integer literal is empty.
Literal-not_empty : (z : ℤ) → ¬ Literal "" z
unfolding take_sign
Literal-not_empty z l = l.spelt.0 (ap (λ (x : Bool × String). x.1) (sym l.split))

-- What a reader of the environment makes of a text that is not empty, given by its parser.
or_else-none {ℓ} :
    {A : Type ℓ} (fallback : A) (o : Option A)
    → ((a : A) → ¬ (o ≡ some a))
    → or_else fallback o ≡ fallback
or_else-none fallback none h = refl
or_else-none fallback (some a) h = absurd (h a refl)

module _ (getenv : Getenv) (key : String) (fallback : ℤ) where
  env_int32-Literal :
      (z : ℤ) → Literal (getenv key) z → Fits 31 z → env_int32 getenv key fallback ≡ z
  unfolding env_int32
  env_int32-Literal z l fits = elim (Bool-cases (getenv key == "")) [
    | inl e ↦
        absurd (Literal-not_empty z (subst (λ (s : String). Literal s z) ((eq_iff _ _).0 e) l))
    | inr e ↦ rw (e, (parse_int_iff 31 (getenv key) z).1 (l, fits)) refl
  ]

  env_int32-fallback :
      ((z : ℤ) → Literal (getenv key) z → ¬ Fits 31 z) → env_int32 getenv key fallback ≡ fallback
  unfolding env_int32
  env_int32-fallback h = elim (Bool-cases (getenv key == "")) [
    | inl e ↦ rw e refl
    | inr e ↦ rw e (
        or_else-none fallback (parse_int 32 (getenv key))
          (λ z k. let (l, fits) = (parse_int_iff 31 (getenv key) z).0 k in h z l fits))
  ]

  -- A variable that holds an optional sign and digits gives the integer that they spell, if it is a
  -- value of an int32; a variable that holds anything else, or nothing, gives the default.
  pub env_int32_lem :
      ((z : ℤ) → Literal (getenv key) z → Fits 31 z → env_int32 getenv key fallback ≡ z)
      × (((z : ℤ) → Literal (getenv key) z → ¬ Fits 31 z)
          → env_int32 getenv key fallback ≡ fallback)
  env_int32_lem = (env_int32-Literal, env_int32-fallback)

  env_duration-parsed :
      (z : ℤ) → parse_duration (getenv key) ≡ some z → env_duration getenv key fallback ≡ z
  unfolding env_duration parse_duration take_sign
  env_duration-parsed z h = elim (Bool-cases (getenv key == "")) [
    | inl e ↦
        absurd (none-some (subst (λ (s : String). parse_duration s ≡ some z) ((eq_iff _ _).0 e) h))
    | inr e ↦ rw (e, h) refl
  ]

  env_duration-fallback :
      ((z : ℤ) → ¬ (parse_duration (getenv key) ≡ some z))
      → env_duration getenv key fallback ≡ fallback
  unfolding env_duration
  env_duration-fallback h = elim (Bool-cases (getenv key == "")) [
    | inl e ↦ rw e refl
    | inr e ↦ rw e (or_else-none fallback (parse_duration (getenv key)) h)
  ]

  -- A variable that holds an optional sign, digits that spell a number and a unit gives the
  -- duration of that many units, if it is a value of an int64, and the default if not.
  pub env_duration-whole :
      (s u : String) (minus : Bool) (n unit : ℕ)
      → take_sign (getenv key) ≡ (minus, s ⋯ u)
      → Spells s n
      → lookup_unit unit_map u ≡ some unit
      → let z = with_sign minus (n * unit) in
        (Fits 63 z → env_duration getenv key fallback ≡ z)
        × (¬ Fits 63 z → env_duration getenv key fallback ≡ fallback)
  env_duration-whole s u minus n unit split spelt found =
      let read = parse_duration-whole_iff (getenv key) s u minus n unit split spelt found in
      (
        λ fits. env_duration-parsed _ ((read _).1 (refl, fits)),
        λ beyond.
            env_duration-fallback
              (λ z h. let (same, fits) = (read z).0 h in beyond (subst (Fits 63) same fits)),
      )
