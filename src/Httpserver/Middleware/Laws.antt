-- ===== src/Httpserver/Middleware/Laws.antt =====
-- About internal/platform/httpserver: correlation.go, logging.go and recoverer.go round a handler.
use taifa_exchange.Base.{
  Bool-cases, List, String, [], ◌∷◌, ◌≡◌, ◌≢◌, ◌==◌, inl, inr, none, some, refl, ne_of_test, ap,
  ◌∙◌,
}
use taifa_exchange.Httpserver.Middleware.{
  Handler, LogEntry, Ran, choose_correlation_id, fresh_writer, panicked, recoverer, request_logger,
  returned, serve,
}
use taifa_exchange.Httpserver.Writer.{
  Request, Writer, correlation_id_from_context, set_header, write_error, error_code_internal,
}
use taifa_exchange.Ids.{Draw, new_correlation_id}
use taifa_exchange.Text.{trim_space}
use taifa_exchange.Text.Fields.{cons-append-not_empty}
use taifa_exchange.Httpserver.Writer.Laws.{write_json-sent}

module _ {S : Type 0} (d : Draw) (handler : Handler S) (r : Request) (s : S) where
  -- The identifier that the middleware chooses, and the writer and the context that the handler
  -- gets.
  abbrev pub identifier : String
  identifier = choose_correlation_id d r

  abbrev pub first_writer : Writer
  first_writer = record (fresh_writer r) {
    headers = ("X-Correlation-ID", identifier) ∷ [];
    recorded = 200;
  }

  abbrev pub outcome : Ran S
  outcome = handler r (some identifier) first_writer s

  -- The writer and the state behind the recoverer.
  abbrev pub recovered : Ran S → Writer × S
  recovered (returned w t) = (w, t)
  recovered (panicked reason w t) =
      (write_error (some identifier) 500 error_code_internal "An internal error occurred." w, t)

  abbrev pub log_of : Writer → List LogEntry
  log_of w =
      record { method = r.method; path = r.path; status = w.recorded; correlation_id = identifier }
      ∷ []

  serve-cases :
      (x : Ran S)
      → outcome ≡ x
      → serve d handler r s ≡ (returned (recovered x).0 (recovered x).1, log_of (recovered x).0)
  unfolding serve request_logger recoverer correlation_id_from_context set_header
  serve-cases (returned w t) h = rw (serve, request_logger, recoverer, set_header, h) refl
  serve-cases (panicked reason w t) h = rw (serve, request_logger, recoverer, set_header, h) refl

  -- Behind the middleware every request gets a response, whether its handler returns or panics, and
  -- one log entry with the status that was recorded and the correlation identifier of the request.
  pub serve-recovered :
      serve d handler r s
      ≡ (returned (recovered outcome).0 (recovered outcome).1, log_of (recovered outcome).0)
  serve-recovered = serve-cases outcome refl

  -- The correlation identifier that the middleware gives to a request is never empty.
  pub identifier_not_empty : identifier ≢ ""
  unfolding choose_correlation_id new_correlation_id
  identifier_not_empty = elim (Bool-cases (trim_space r.x_correlation_id == "")) [
    | inl h ↦ rw h (ne_of_test _ _ (cons-append-not_empty _ "orr-" _))
    | inr h ↦ rw h (ne_of_test _ _ h)
  ]

  -- A panic of a handler that has sent nothing and set no header is answered with the status 500
  -- and the correlation identifier in the headers that are sent.
  pub serve-panic :
      (reason : String) (w : Writer) (t : S)
      → outcome ≡ panicked reason w t
      → w.sent ≡ none
      → w.headers ≡ first_writer.headers
      → (x : Writer) × ((serve d handler r s).0 ≡ returned x t)
        × (x.sent
            ≡ some (record {
              status = 500;
              headers =
                  ("Content-Type", "application/json") ∷ ("X-Correlation-ID", identifier) ∷ [];
            }))
  unfolding write_error
  serve-panic reason w t h new headers = (
    (recovered (panicked reason w t)).0,
    ap (λ (x : Ran S × List LogEntry). x.0) (serve-cases (panicked reason w t) h),
    write_json-sent 500 _ w new ∙ rw headers refl,
  )
