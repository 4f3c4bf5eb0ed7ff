-- ===== src/Httpserver/Writer.antt =====
-- internal/platform/httpserver/errors.go and json.go, over a model of `http.ResponseWriter`: the
-- first WriteHeader fixes the status and the headers that are sent, later ones change nothing.
-- A JSON body is the value that is encoded. Marshalling cannot fail for the types used here, but the
-- write of the encoded text to the client can: whether each write goes through is an input.
pub mod Laws
use taifa_exchange.Base.{
  List, Option, String, [], none, some, ℕ, ◌++◌, ◌∷◌, Bool, if◌then◌else◌, true,
}
use taifa_exchange.Exchange.Model.{AuthorizeResponse}
use taifa_exchange.Outcome.{Result}
use taifa_exchange.Json.{Json}

abbrev pub error_code_invalid_json : String
error_code_invalid_json = "INVALID_JSON"

abbrev pub error_code_internal : String
error_code_internal = "INTERNAL_ERROR"

-- What a handler reads of an HTTP request. `body` is `none` for a nil body, and else the first JSON
-- value in it or the error of the decoder; the headers are what `Header.Get` returns. `writes`
-- belongs to the connection, and no handler reads it: for each write to it, whether it goes through.
pub record Request : Type 0 where
  pub method : String
  pub path : String
  pub authorization : String
  pub x_correlation_id : String
  pub body : Option (Result Json)
  pub writes : List Bool

-- The value of a request's context under the key of the correlation identifier.
abbrev pub Context : Type 0
Context = Option String

-- `CorrelationIDFromContext`
unfoldable pub correlation_id_from_context : Context → String
correlation_id_from_context none = ""
correlation_id_from_context (some id) = id

-- `ErrorBody` and `ErrorEnvelope`
pub record ErrorBody : Type 0 where
  pub code : String
  pub correlation_id : String
  pub message : String

pub record ErrorEnvelope : Type 0 where
  pub correlation_id : String
  pub error : ErrorBody

-- What is encoded as the body of a response.
pub data Payload : Type 0 where
  -- The text that `http.Error` writes.
  text_payload : String → Payload
  error_payload : ErrorEnvelope → Payload
  -- `DataEnvelope` with an authorization response.
  data_payload : String → Option AuthorizeResponse → Payload
  -- The answer of /healthz: correlation identifier, status, service, environment.
  health_payload : String → String → String → String → Payload
  -- The answer of /readyz: correlation identifier, status, service, database, taifa_id.
  ready_payload : String → String → String → String → String → Payload

pub record Sent : Type 0 where
  pub status : ℕ
  pub headers : List (String × String)

-- A response writer, inside the `responseRecorder` of logging.go.
pub record Writer : Type 0 where
  pub headers : List (String × String)
  pub sent : Option Sent
  pub body : List Payload
  -- The outcomes of the writes to come; no write fails behind their end.
  pub writes : List Bool
  -- `recorder.statusCode`
  pub recorded : ℕ

-- `w.Header().Set`
unfoldable pub set_header : String → String → Writer → Writer
set_header name value w = record w { headers = (name, value) ∷ w.headers }

abbrev first_sent : Option Sent → Sent → Sent
first_sent none s = s
first_sent (some s) _ = s

-- `responseRecorder.WriteHeader`
unfoldable pub write_header : ℕ → Writer → Writer
write_header status w = record w {
  sent = some (first_sent w.sent (record { status = status; headers = w.headers }));
  recorded = status;
}

-- Whether the next write goes through.
abbrev pub goes_through : List Bool → Bool
goes_through [] = true
goes_through (b ∷ bs) = b

abbrev writes_left : List Bool → List Bool
writes_left [] = []
writes_left (b ∷ bs) = bs

-- One write to the client; the body of a failed one is lost.
unfoldable pub write : Payload → Writer → Writer
write payload w = record w {
  body = if goes_through w.writes then w.body ++ payload ∷ [] else w.body;
  writes = writes_left w.writes;
}

-- `http.Error` with `http.StatusText(500)`
unfoldable pub http_error : Writer → Writer
unfolding write write_header set_header
http_error w = write (text_payload "Internal Server Error") (
    write_header 500 (
      set_header "X-Content-Type-Options" "nosniff"
        (set_header "Content-Type" "text/plain; charset=utf-8" w)))

-- `WriteJSON`
unfoldable pub write_json : ℕ → Payload → Writer → Writer
unfolding set_header write_header write http_error
write_json status payload w =
    let w' = write_header status (set_header "Content-Type" "application/json" w) in
    if goes_through w'.writes then write payload w' else http_error (write payload w')

-- `WriteError`
unfoldable pub write_error : Context → ℕ → String → String → Writer → Writer
unfolding write_json correlation_id_from_context
write_error context status code message =
    let id = correlation_id_from_context context in
    write_json status (
      error_payload (record {
        correlation_id = id;
        error = record { code = code; correlation_id = id; message = message };
      }))

-- `WriteData`
unfoldable pub write_data : Context → ℕ → Option AuthorizeResponse → Writer → Writer
unfolding write_json correlation_id_from_context
write_data context status response =
    write_json status (data_payload (correlation_id_from_context context) response)
