-- ===== src/App/Route.antt =====
-- internal/exchange/routes.go, and the route behind the middleware of internal/app/app.go: what a
-- client gets from POST /api/v1/exchange/authorize.
use taifa_exchange.App.{exchange_server}
use taifa_exchange.Config.{Config}
use taifa_exchange.Httpserver.Server.{Server, new_server}
use taifa_exchange.Base.{List, Option, String, [], ◌∷◌, ◌≡◌, ◌↔◌, ap, refl, some, if◌then◌else◌}
use taifa_exchange.Database.Session.{Pool, Session}
use taifa_exchange.Exchange.Handler.{Handler as ExchangeHandler, handle}
use taifa_exchange.Exchange.Handler.Laws.{Came, handle-allow_iff, status_of}
use taifa_exchange.Exchange.Model.{AuthorizeResult, decision_allow}
use taifa_exchange.Exchange.Service.{Service, Surroundings}
use taifa_exchange.Httpserver.Middleware.{Handler, LogEntry, Ran, returned, serve}
use taifa_exchange.Httpserver.Middleware.Laws.{first_writer, identifier, serve-recovered}
use taifa_exchange.Httpserver.Writer.{Request, Writer, goes_through}
use taifa_exchange.Ids.{Draw}
use taifa_exchange.Taifaid.Client.{Client}
use taifa_exchange.Text.{Unicode}
use taifa_exchange.Exchange.Handler.Recorded.{handle-IsRecorded}

module _ ⦃u : Unicode⦄ (env : Surroundings) (server : Server ExchangeHandler) where
  -- The handler that RegisterRoutes registers.
  unfoldable pub authorize_route : Handler Session
  authorize_route r context w s =
      let (w', s') = handle env (some server.handler) r context w s in returned w' s'

  -- The whole of the route.
  unfoldable pub serve_authorize : Draw → Request → Session → Ran Session × List LogEntry
  serve_authorize d r s = serve d authorize_route r s

-- The exchange service of an application that New puts together.
abbrev pub service_of : Option Pool → Option Client → Service
service_of pool client = record {
  repository = some pool;
  policy_service = some (record { repository = some pool });
  taifa_id_client = client;
}

module _ ⦃u : Unicode⦄ (env : Surroundings) (cfg : Config) (pool : Option Pool)
    (client : Option Client) (d : Draw) (r : Request) (s : Session) where
  abbrev server : Server ExchangeHandler
  server = exchange_server cfg pool client

  abbrev route : Handler Session
  route = authorize_route env server

  abbrev pub identified : String
  identified = identifier d route r s

  abbrev pub start : Writer
  start = first_writer d route r s

  -- What the client gets, and what the log says of it.
  pub record Answered (x : Ran Session × List LogEntry) : Type 0 where
    pub writer : Writer
    pub session : Session
    pub response : x.0 ≡ returned writer session
    pub logged :
        x.1
        ≡ record {
          method = r.method;
          path = r.path;
          status = writer.recorded;
          correlation_id = identified;
        }
          ∷ []
    pub logged_status :
        writer.recorded ≡ (if goes_through r.writes then status_of writer.sent else 500)
    pub status : (status_of writer.sent ≡ 200) ↔ (
        (result : AuthorizeResult) × Came env
          (service_of pool client)
          r
          (some identified)
          start
          s
          result
        × (result.decision_record.decision ≡ decision_allow))

  -- Of the server that New puts together, every request to the authorize route gets a response and
  -- one log entry with the correlation identifier. The log entry has the status that was sent, or
  -- 500 where the write of the body failed, whatever was sent. The status that was sent is 200
  -- exactly if Authorize returned an ALLOW for the request.
  pub serve_authorize-Answered : Answered (serve_authorize env server d r s)
  unfolding serve_authorize authorize_route exchange_server new_server
  serve_authorize-Answered =
      let handled = handle env (some server.handler) r (some identified) start s in
      let run = serve-recovered d route r s in
      record {
        writer = handled.0;
        session = handled.1;
        response = ap (λ (x : Ran Session × List LogEntry). x.0) run;
        logged = ap (λ (x : Ran Session × List LogEntry). x.1) run;
        logged_status =
            handle-IsRecorded env (service_of pool client) r (some identified) start s refl;
        status = handle-allow_iff env (service_of pool client) r (some identified) start s refl;
      }
