-- ===== src/Httpserver/Middleware.antt =====
-- internal/platform/httpserver: correlation.go, logging.go and recoverer.go, in the order in which
-- internal/app/app.go wraps them round the routes.
pub mod Laws
use taifa_exchange.Base.{List, String, [], if◌then◌else◌, none, some, ℕ, ◌==◌, ◌∷◌}
use taifa_exchange.Httpserver.Writer.{
  Context, Request, Writer, correlation_id_from_context, error_code_internal, set_header,
  write_error,
}
use taifa_exchange.Ids.{Draw, new_correlation_id}
use taifa_exchange.Text.{trim_space}
use taifa_exchange.Exchange.Handler.Laws.{handler}

-- How a handler ended: it returned, or it panicked with what it had written.
pub data Ran (S : Type 0) : Type 0 where
  returned : Writer → S → Ran S
  panicked : String → Writer → S → Ran S

-- A handler, over a state S of what it reaches.
abbrev pub Handler : Type 0 → Type 0
Handler S = Request → Context → Writer → S → Ran S

-- "http request completed"
pub record LogEntry : Type 0 where
  pub method : String
  pub path : String
  pub status : ℕ
  pub correlation_id : String

abbrev pub fresh_writer : Request → Writer
fresh_writer r = record { headers = []; sent = none; body = []; writes = r.writes; recorded = 0 }

abbrev entry : Request → Context → Writer → LogEntry
entry r context w = record {
  method = r.method;
  path = r.path;
  status = w.recorded;
  correlation_id = correlation_id_from_context context;
}

-- `CorrelationIDMiddleware`: the identifier, for a draw in case a new one is made.
unfoldable pub choose_correlation_id : Draw → Request → String
choose_correlation_id d r =
    if trim_space r.x_correlation_id == ""
    then new_correlation_id d
    else trim_space r.x_correlation_id

module _ {S : Type 0} where
  -- `RecovererMiddleware`
  unfoldable pub recoverer : Handler S → Handler S
  recoverer next r context w s = elim (next r context w s) [
    | returned w' s' ↦ returned w' s'
    | panicked reason w' s' ↦
        returned (write_error context 500 error_code_internal "An internal error occurred." w') s'
  ]

  -- `RequestLoggerMiddleware`: a panic passes through it without an entry.
  unfoldable pub request_logger : Handler S → Request → Context → Writer → S → Ran S × List LogEntry
  unfolding correlation_id_from_context
  request_logger next r context w s = elim (next r context (record w { recorded = 200 }) s) [
    | returned w' s' ↦ (returned w' s', entry r context w' ∷ [])
    | panicked reason w' s' ↦ (panicked reason w' s', [])
  ]

  -- The three of them round a handler, for a new response.
  unfoldable pub serve : Draw → Handler S → Request → S → Ran S × List LogEntry
  unfolding recoverer request_logger choose_correlation_id set_header
  serve d handler r s =
      let id = choose_correlation_id d r in
      request_logger (recoverer handler) r (some id)
        (set_header "X-Correlation-ID" id (fresh_writer r)) s
