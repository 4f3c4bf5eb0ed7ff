-- ===== src/Httpserver/Server.antt =====
-- internal/platform/httpserver/server.go. The server is that of net/http, known by its settings.
use taifa_exchange.Base.{String, ℤ}

-- `httpserver.Config`
pub record ServerConfig : Type 0 where
  pub addr : String
  pub read_timeout : ℤ
  pub write_timeout : ℤ
  pub idle_timeout : ℤ

-- `http.Server`, as far as New sets it.
pub record Server {ℓ} (H : Type ℓ) : Type ℓ where
  pub addr : String
  pub handler : H
  pub read_timeout : ℤ
  pub write_timeout : ℤ
  pub idle_timeout : ℤ

-- `httpserver.New`
unfoldable pub new_server {ℓ} : {H : Type ℓ} → ServerConfig → H → Server H
new_server cfg handler = record {
  addr = cfg.addr;
  handler = handler;
  read_timeout = cfg.read_timeout;
  write_timeout = cfg.write_timeout;
  idle_timeout = cfg.idle_timeout;
}
