-- ===== src/Tests/Platform.antt =====
-- Runs of internal/platform, internal/app, internal/taifaid and internal/audit.
use taifa_exchange.Tests.Fixtures.{
  ascii_only, pool, session, draw, network, actor_answer, capabilities_answer, client, config,
  driver, parsed, ready_answer,
}
use taifa_exchange.App.{App, assemble, open_client, postgres_config, readyz}
use taifa_exchange.Database.Driver.{pool_config}
use taifa_exchange.Database.Driver.Laws.{chosen, pool_config_bounds}
use taifa_exchange.App.Laws.{DatabaseUp, IdentityUp, readyz_iff}
use taifa_exchange.Base.{◌≤ℤ◌}
use taifa_exchange.Base.{[], none, refl, some, ◌↔◌, ◌∷◌, ◌≡◌, ◌⊎◌, arith, List, ℕ}
use taifa_exchange.Database.Atomic.{in_tx_atomic, Ran}
use taifa_exchange.Database.Session.{Db, in_tx}
use taifa_exchange.Database.Tables.{empty_tables}
use taifa_exchange.Exchange.Handler.Laws.{status_of}
use taifa_exchange.Httpserver.Middleware.{fresh_writer, panicked, returned, serve, Handler}
use taifa_exchange.Httpserver.Middleware.Laws.{first_writer, identifier, serve-panic}
use taifa_exchange.Httpserver.Writer.{Request, Writer}
use taifa_exchange.Outcome.{err, ok, plain}
use taifa_exchange.Text.{is_space, trim_left, trim_right, trim_space}
use taifa_exchange.Taifaid.Client.{
  exchange, is_configured, list_organization_capabilities, post_json, resolve_actor_context, ready,
}
use taifa_exchange.Taifaid.Client.Laws.{Listed, Resolved}
use taifa_exchange.Taifaid.Client.Accepts.{
  SaidReady, list_organization_capabilities_iff, ready_iff, resolve_actor_context_iff,
}
use taifa_exchange.Ids.{Draw}
use taifa_exchange.Ids.Laws.{new_id_injective}

abbrev request : Request
request = record {
  method = "GET";
  path = "/readyz";
  authorization = "";
  x_correlation_id = " ";
  body = none;
  writes = [];
}

-- A handler that panics with nothing sent.
abbrev panics : Handler (Unit {0})
panics r context w s = panicked "boom" w s

serve-panic_example :
    (x : Writer) × ((serve draw panics request tt).0 ≡ returned x tt)
    × (x.sent
        ≡ some (record {
          status = 500;
          headers =
              ("Content-Type", "application/json")
              ∷ ("X-Correlation-ID", identifier draw panics request tt)
              ∷ [];
        }))
serve-panic_example =
    serve-panic draw panics request tt "boom" (first_writer draw panics request tt) tt refl refl
      refl

pool_config_bounds_example :
    let made = pool_config (postgres_config config.database) parsed in
    let min = chosen config.database.min_conns parsed.min_conns in
    let max = chosen config.database.max_conns parsed.max_conns in
    (made.min_conns ≡ min)
    × (min ≤ℤ made.max_conns)
    × (max ≤ℤ made.max_conns)
    × (min ≤ℤ max → made.max_conns ≡ max)
pool_config_bounds_example = pool_config_bounds (postgres_config config.database) parsed

abbrev made : App
made = assemble config (some pool) (open_client config)

readyz_iff_example :
    ((status_of (readyz driver network made (some "corr-1") (fresh_writer request)).sent ≡ 200) ↔ (
      DatabaseUp driver network made (some "corr-1")
      × IdentityUp driver network made (some "corr-1")))
    × ((status_of (readyz driver network made (some "corr-1") (fresh_writer request)).sent ≡ 503)
        ↔ ¬ (
            DatabaseUp driver network made (some "corr-1")
            × IdentityUp driver network made (some "corr-1")))
readyz_iff_example = readyz_iff driver network made (some "corr-1") (fresh_writer request) refl

-- A function that empties the tables and fails.
abbrev breaks : Db (Unit {0})
breaks s = (err (plain "broken"), record s { tables = empty_tables })

in_tx_atomic_example :
    ((in_tx (some pool) breaks session).1.tables ≡ session.tables)
    ⊎ ((a : Unit {0}) × (r : Ran breaks session a) × ((in_tx (some pool) breaks session).1.tables
          ≡ (breaks r.start).1.tables))
in_tx_atomic_example = in_tx_atomic breaks session (some pool)

ready_iff_example :
    (ready network (some client) "corr-1" ≡ ok ready_answer)
    ↔ SaidReady network (some client) "corr-1" ready_answer
ready_iff_example = ready_iff network (some client) "corr-1" ready_answer

-- The answers of the fixtures are accepted.
resolved : resolve_actor_context network (some client) "secret" "ORG-1" "corr-1" ≡ ok actor_answer
unfolding resolve_actor_context post_json exchange is_configured trim_space trim_left trim_right
    is_space
resolved = refl

resolve_actor_context_iff_example :
    (resolve_actor_context network (some client) "secret" "ORG-1" "corr-1" ≡ ok actor_answer)
    ↔ Resolved network (some client) "corr-1" "secret" "ORG-1" actor_answer
resolve_actor_context_iff_example =
    resolve_actor_context_iff network (some client) "corr-1" "secret" "ORG-1" actor_answer

listed :
    list_organization_capabilities network (some client) "ORG-1" "corr-1" ≡ ok capabilities_answer
unfolding list_organization_capabilities exchange is_configured trim_space trim_left trim_right
    is_space
listed = refl

list_organization_capabilities_iff_example :
    (list_organization_capabilities network (some client) "ORG-1" "corr-1" ≡ ok capabilities_answer)
    ↔ Listed network (some client) "corr-1" "ORG-1" capabilities_answer
list_organization_capabilities_iff_example =
    list_organization_capabilities_iff network (some client) "corr-1" "ORG-1" capabilities_answer

abbrev one_byte : Draw
one_byte = record { now = 7; stamp = "20260101000000"; random = some (171 ∷ []) }

abbrev bytes : List ℕ
bytes = 171 ∷ []

new_id_injective_example : bytes ≡ bytes
new_id_injective_example =
    new_id_injective "DEC" one_byte one_byte bytes bytes refl refl (omega arith, tt)
      (omega arith, tt) refl refl
