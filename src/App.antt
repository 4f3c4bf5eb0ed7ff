-- ===== src/App.antt =====
-- internal/app/app.go: how the service is put together, its routes for health and readiness, and, in
-- Run, how it starts and stops.
pub mod Laws
pub mod Route
pub mod Lifecycle
use taifa_exchange.Policy.Service.{new_service as new_policy_service}
use taifa_exchange.Policy.Repository.{new_repository as new_policy_repository}
use taifa_exchange.Exchange.Repository.{new_repository}
use taifa_exchange.Exchange.Service.{new_service}
use taifa_exchange.Exchange.Handler.{new_handler}
use taifa_exchange.Config.{Config, DatabaseConfig, HttpConfig}
use taifa_exchange.Database.Driver.{Driver, PostgresConfig, open_pool, ping}
use taifa_exchange.Httpserver.Server.{Server, ServerConfig, new_server}
use taifa_exchange.Outcome.{◌>>=◌, Result, err, ok, plain, wrap}
use taifa_exchange.Policy.Service as PolicyService
use taifa_exchange.Exchange.Service.{Service}
use taifa_exchange.Exchange.Handler.{Handler}
use taifa_exchange.Base.{Option, String, if◌then◌else◌, ltb, none, some, ℕ, ◌==◌}
use taifa_exchange.Database.Session.{Pool}
use taifa_exchange.Httpserver.Writer.{
  Context, Writer, correlation_id_from_context, health_payload, ready_payload, write_json,
}
use taifa_exchange.Taifaid.Client.{Client, Network, is_configured, new_client, ready}
use taifa_exchange.Taifaid.Dto.{ReadyResponse}
use taifa_exchange.Exchange.Service.Course.{correlation_id}

abbrev pub postgres_config : DatabaseConfig → PostgresConfig
postgres_config c = record {
  dsn = c.dsn;
  min_conns = c.min_conns;
  max_conns = c.max_conns;
  connect_timeout = c.connect_timeout;
}

-- `App`. The router is known by the handler of its route /api/v1/exchange/authorize.
pub record App : Type 0 where
  pub cfg : Config
  pub db_pool : Option Pool
  pub taifa_id_client : Option Client
  pub http_server : Option (Server Handler)

-- The pool of New: none is opened without a DSN.
unfoldable pub open_database : Driver → Config → Result (Option Pool)
open_database driver cfg = if cfg.database.dsn == "" then ok none else (do
  pool ← wrap "open postgres" (open_pool driver (postgres_config cfg.database))
  ok (some pool))

-- The client of New: none is made without a base URL.
unfoldable pub open_client : Config → Option Client
open_client cfg =
    if cfg.taifa_id.base_url == ""
    then none
    else some (new_client cfg.taifa_id.base_url cfg.taifa_id.timeout)

-- The repositories, the services and the handler of New.
abbrev pub exchange_handler : Option Pool → Option Client → Handler
exchange_handler pool client =
    let policy_service = new_policy_service (new_policy_repository pool) in
    new_handler (some (new_service (new_repository pool) (some policy_service) client))

abbrev pub server_config : HttpConfig → ServerConfig
server_config c = record {
  addr = c.addr;
  read_timeout = c.read_timeout;
  write_timeout = c.write_timeout;
  idle_timeout = c.idle_timeout;
}

-- The server of New, and the application.
unfoldable pub exchange_server : Config → Option Pool → Option Client → Server Handler
unfolding new_server
exchange_server cfg pool client = new_server (server_config cfg.http) (exchange_handler pool client)

unfoldable pub assemble : Config → Option Pool → Option Client → App
assemble cfg pool client = record {
  cfg = cfg;
  db_pool = pool;
  taifa_id_client = client;
  http_server = some (exchange_server cfg pool client);
}

-- `app.New`
unfoldable pub new_app : Driver → Config → Result App
unfolding open_database open_client assemble
new_app driver cfg = do pool ← open_database driver cfg; ok (assemble cfg pool (open_client cfg))

-- The answer of /healthz.
unfoldable pub healthz : App → Context → Writer → Writer
unfolding write_json correlation_id_from_context
healthz app context = write_json 200 (
    health_payload (correlation_id_from_context context) "ok" app.cfg.service_name
      app.cfg.environment)

-- The variables of the handler of /readyz.
pub record Readiness : Type 0 where
  pub status_code : ℕ
  pub status : String
  pub database_status : String
  pub taifa_id_status : String

abbrev pub ready_so_far : Readiness
ready_so_far = record {
  status_code = 200;
  status = "ok";
  database_status = "not_configured";
  taifa_id_status = "not_configured";
}

abbrev database_result : Readiness → Result (Unit {0}) → Readiness
database_result r (ok _) = record r { database_status = "ok" }
database_result r (err e) = record r {
  status_code = 503;
  status = "degraded";
  database_status = "unavailable";
}

abbrev identity_result : Readiness → Result ReadyResponse → Readiness
identity_result r (ok _) = record r { taifa_id_status = "ok" }
identity_result r (err e) = record r {
  status_code = 503;
  status = "degraded";
  taifa_id_status = "unavailable";
}

unfoldable pub check_database : Driver → Option Pool → Readiness → Readiness
check_database driver none r = r
check_database driver (some pool) r = database_result r (ping driver (some pool))

-- A client that is not nil is asked only if it is configured.
unfoldable pub check_identity : Network → Option Client → String → Readiness → Readiness
check_identity network client correlation_id r =
    if is_configured client then identity_result r (ready network client correlation_id) else r

unfoldable pub readiness : Driver → Network → App → Context → Readiness
unfolding check_database check_identity
readiness driver network app context =
    check_identity network app.taifa_id_client (correlation_id_from_context context)
      (check_database driver app.db_pool ready_so_far)

-- The answer of /readyz.
unfoldable pub readyz : Driver → Network → App → Context → Writer → Writer
unfolding readiness write_json correlation_id_from_context
readyz driver network app context =
    let r = readiness driver network app context in
    write_json r.status_code (
      ready_payload (correlation_id_from_context context) r.status app.cfg.service_name
        r.database_status r.taifa_id_status)
