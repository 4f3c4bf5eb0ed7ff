-- ===== src/Config.antt =====
-- internal/config/config.go. The environment is an argument: the value of each variable, which is
-- empty for one that is not set, as `os.Getenv` returns it. Durations are nanoseconds.
pub mod Laws
use taifa_exchange.Base.{ℕ, ◌*◌, ◌^◌, String, ℤ, pos, Option, none, some, ◌==◌, if◌then◌else◌}
use taifa_exchange.Parsing.Integer.{parse_int}
use taifa_exchange.Parsing.Duration.{parse_duration}

pub record HttpConfig : Type 0 where
  pub addr : String
  pub read_timeout : ℤ
  pub write_timeout : ℤ
  pub idle_timeout : ℤ
  pub shutdown_timeout : ℤ

pub record DatabaseConfig : Type 0 where
  pub dsn : String
  pub min_conns : ℤ
  pub max_conns : ℤ
  pub connect_timeout : ℤ

pub record TaifaIdConfig : Type 0 where
  pub base_url : String
  pub timeout : ℤ

pub record SeedConfig : Type 0 where
  pub timeout : ℤ

pub record Config : Type 0 where
  pub service_name : String
  pub environment : String
  pub http : HttpConfig
  pub database : DatabaseConfig
  pub taifa_id : TaifaIdConfig
  pub seed : SeedConfig

abbrev pub Getenv : Type 0
Getenv = String → String

-- `time.Second` times `n`, `time.Minute` times `n`.
abbrev pub seconds : ℕ → ℤ
seconds n = pos (n * 10 ^ 9)

abbrev pub minutes : ℕ → ℤ
minutes n = pos (n * (60 * 10 ^ 9))

abbrev pub or_else {ℓ} : {A : Type ℓ} → A → Option A → A
or_else fallback none = fallback
or_else fallback (some a) = a

module _ (getenv : Getenv) where
  unfoldable pub env_string : String → String → String
  env_string key fallback = let value = getenv key in if value == "" then fallback else value

  unfoldable pub env_duration : String → ℤ → ℤ
  env_duration key fallback =
      let value = getenv key in
      if value == "" then fallback else or_else fallback (parse_duration value)

  -- The conversion of an int64 that fits into 32 bits changes nothing.
  unfoldable pub env_int32 : String → ℤ → ℤ
  env_int32 key fallback =
      let value = getenv key in
      if value == "" then fallback else or_else fallback (parse_int 32 value)

  unfoldable pub load : Config
  unfolding env_string env_duration env_int32
  load = record {
    service_name = env_string "TAIFA_EXCHANGE_SERVICE_NAME" "taifa-exchange";
    environment = env_string "TAIFA_EXCHANGE_ENV" "local";
    http = record {
      addr = env_string "TAIFA_EXCHANGE_HTTP_ADDR" ":8081";
      read_timeout = env_duration "TAIFA_EXCHANGE_HTTP_READ_TIMEOUT" (seconds 5);
      write_timeout = env_duration "TAIFA_EXCHANGE_HTTP_WRITE_TIMEOUT" (seconds 10);
      idle_timeout = env_duration "TAIFA_EXCHANGE_HTTP_IDLE_TIMEOUT" (seconds 60);
      shutdown_timeout = env_duration "TAIFA_EXCHANGE_HTTP_SHUTDOWN_TIMEOUT" (seconds 10);
    };
    database = record {
      dsn = env_string "TAIFA_EXCHANGE_DATABASE_DSN" "";
      min_conns = env_int32 "TAIFA_EXCHANGE_DATABASE_MIN_CONNS" (pos 1);
      max_conns = env_int32 "TAIFA_EXCHANGE_DATABASE_MAX_CONNS" (pos 5);
      connect_timeout = env_duration "TAIFA_EXCHANGE_DATABASE_CONNECT_TIMEOUT" (seconds 5);
    };
    taifa_id = record {
      base_url = env_string "TAIFA_EXCHANGE_TAIFA_ID_BASE_URL" "";
      timeout = env_duration "TAIFA_EXCHANGE_TAIFA_ID_TIMEOUT" (seconds 10);
    };
    seed = record { timeout = env_duration "TAIFA_EXCHANGE_SEED_TIMEOUT" (minutes 5) };
  }
