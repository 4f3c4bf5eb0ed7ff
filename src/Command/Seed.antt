-- ===== src/Command/Seed.antt =====
-- cmd/taifa-exchange-seed/main.go. Its timeout is one of the reasons for which a call can fail.
pub mod Laws
use taifa_exchange.App.{postgres_config}
use taifa_exchange.App.Lifecycle.{PoolState, no_pool, pool_closed, pool_open}
use taifa_exchange.Base.{Option, if◌then◌else◌, none, some, ℕ, ℤ, ◌==◌}
use taifa_exchange.Config.{Getenv, load}
use taifa_exchange.Database.Driver.{Driver, open_pool}
use taifa_exchange.Database.Session.{Pool, Session}
use taifa_exchange.Ids.{Draw}
use taifa_exchange.Outcome.{Result, err, ok}
use taifa_exchange.Policy.Seed.{SeedPolicy, SeedSummary, new_seeder}
use taifa_exchange.Policy.Seed.Canonical.{seed_canonical}
use taifa_exchange.Text.{Unicode}

-- The exit status, the numbers and the duration in the line that is printed, and what is left of the
-- pool: `os.Exit` does not run the deferred call that closes it.
pub record SeedRun : Type 0 where
  pub status : ℕ
  pub printed : Option (SeedSummary × ℤ)
  pub pool : PoolState

abbrev pub failed : PoolState → SeedRun
failed pool = record { status = 1; printed = none; pool = pool }

abbrev pub seed_report : ℤ → Result SeedSummary → SeedRun
seed_report timeout (err e) = failed pool_open
seed_report timeout (ok summary) = record {
  status = 0;
  printed = some (summary, timeout);
  pool = pool_closed;
}

module _ ⦃u : Unicode⦄ (draws : SeedPolicy → Draw) where
  abbrev pub seed_opened : ℤ → Result Pool → Session → SeedRun × Session
  seed_opened timeout (err e) s = (failed no_pool, s)
  seed_opened timeout (ok pool) s =
      let (r, s') = seed_canonical draws (new_seeder (some pool)) s in (seed_report timeout r, s')

  -- `main`
  unfoldable pub seed_main : Driver → Getenv → Session → SeedRun × Session
  seed_main driver getenv s =
      let cfg = load getenv in
      if cfg.database.dsn == ""
      then (failed no_pool, s)
      else seed_opened cfg.seed.timeout (open_pool driver (postgres_config cfg.database)) s
