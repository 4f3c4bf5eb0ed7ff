-- ===== src/Database/Driver.antt =====
-- internal/platform/postgres/db.go. The driver, pgxpool, is an argument. Durations are nanoseconds.
pub mod Laws
use taifa_exchange.Outcome.{◌>>=◌, Result, err, ok, plain, wrap}
use taifa_exchange.Base.{Option, String, if◌then◌else◌, ltb_ℤ, none, pos, some, ℤ, ◌==◌}
use taifa_exchange.Database.Session.{Pool}

-- `postgres.Config`
pub record PostgresConfig : Type 0 where
  pub dsn : String
  pub min_conns : ℤ
  pub max_conns : ℤ
  pub connect_timeout : ℤ

-- `pgxpool.Config`, as far as Open reads and writes it.
pub record PoolConfig : Type 0 where
  pub min_conns : ℤ
  pub max_conns : ℤ
  pub connect_timeout : ℤ

-- `pgxpool.ParseConfig`, `pgxpool.NewWithConfig` and `Pool.Ping`.
pub record Driver : Type 0 where
  pub parse_config : String → Result PoolConfig
  pub new_pool : PoolConfig → Result Pool
  pub ping_pool : Pool → Result (Unit {0})

-- What Open makes of the parsed configuration.
unfoldable pub pool_config : PostgresConfig → PoolConfig → PoolConfig
pool_config cfg parsed =
    let min = if ltb_ℤ (pos 0) cfg.min_conns then cfg.min_conns else parsed.min_conns in
    let max = if ltb_ℤ (pos 0) cfg.max_conns then cfg.max_conns else parsed.max_conns in
    record {
      min_conns = min;
      max_conns = if ltb_ℤ max min then min else max;
      connect_timeout =
          if ltb_ℤ (pos 0) cfg.connect_timeout then cfg.connect_timeout else parsed.connect_timeout;
    }

-- `postgres.Ping`
unfoldable pub ping : Driver → Option Pool → Result (Unit {0})
ping driver none = err (plain "postgres pool is nil")
ping driver (some pool) = driver.ping_pool pool

-- `postgres.Open`
unfoldable pub open_pool : Driver → PostgresConfig → Result Pool
unfolding pool_config ping
open_pool driver cfg = if cfg.dsn == "" then err (plain "postgres dsn is required") else do
  parsed ← wrap "parse postgres config" (driver.parse_config cfg.dsn)
  pool ← wrap "create postgres pool" (driver.new_pool (pool_config cfg parsed))
  _ ← wrap "ping postgres" (ping driver (some pool))
  ok pool
