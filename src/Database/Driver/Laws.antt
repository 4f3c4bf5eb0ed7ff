-- ===== src/Database/Driver/Laws.antt =====
-- About internal/platform/postgres/db.go, Open.
use taifa_exchange.Base.{
  arith, false, pos, test_of_ne, ℤ, ◌==◌, ◌≡◌, ◌≢◌, ◌≤ℤ◌, ltb_ℤ, if◌then◌else◌, refl,
}
use taifa_exchange.Database.Driver.{
  Driver, PoolConfig, PostgresConfig, open_pool, ping, pool_config,
}
use taifa_exchange.Database.Session.{Pool}
use taifa_exchange.Outcome.{ok}

-- A setting that is not positive leaves the parsed one alone.
abbrev pub chosen : ℤ → ℤ → ℤ
chosen setting parsed = if ltb_ℤ (pos 0) setting then setting else parsed

-- The maximum, raised to the minimum where it is below.
abbrev raised : ℤ → ℤ → ℤ
raised min max = if ltb_ℤ max min then min else max

raised_bounds :
    (min max : ℤ)
    → (min ≤ℤ raised min max) × (max ≤ℤ raised min max) × (min ≤ℤ max → raised min max ≡ max)
raised_bounds min max = (ground arith, ground arith, λ h. ground arith)

-- Open asks for the minimum of connections of its settings where that is positive, and else for
-- that of the DSN; its maximum is at least this minimum and at least the maximum of the settings,
-- or of the DSN, and is that maximum unless it is below the minimum.
pub pool_config_bounds :
    (cfg : PostgresConfig) (parsed : PoolConfig)
    → let made = pool_config cfg parsed in
      let min = chosen cfg.min_conns parsed.min_conns in
      let max = chosen cfg.max_conns parsed.max_conns in
      (made.min_conns ≡ min)
      × (min ≤ℤ made.max_conns)
      × (max ≤ℤ made.max_conns)
      × (min ≤ℤ max → made.max_conns ≡ max)
unfolding pool_config
pool_config_bounds cfg parsed =
    let (low, high, exact) =
      raised_bounds (chosen cfg.min_conns parsed.min_conns)
        (chosen cfg.max_conns parsed.max_conns) in
    (refl, low, high, exact)

-- A pool that Open returns answered the ping.
pub open_pool-ok :
    (driver : Driver) (cfg : PostgresConfig) (pool : Pool)
    → cfg.dsn ≢ ""
    → open_pool driver cfg ≡ ok pool
    → driver.ping_pool pool ≡ ok tt
unfolding open_pool ping
open_pool-ok driver cfg pool has h =
    let test : (cfg.dsn == "") ≡ false = test_of_ne _ _ has in ground arith
