-- ===== src/Taifaid/Client.antt =====
-- internal/taifaid/client.go. The network is a parameter: what it answers to a request, or an
-- error. A body is a reader that gives what `json.Decoder.Decode` finds in it for a type.
pub mod Laws
pub mod Accepts
use Prim.Native.String.{◌++◌ as ◌⋯◌}
use taifa_exchange.Text.Fields.{trim_right_code}
use taifa_exchange.Base.{
  Bool, List, Option, String, [], false, if◌then◌else◌, leb, ltb, none, not, some, ℕ, ◌==◌, ◌||◌,
  ◌∷◌, code, ltb_ℤ, pos, ℤ, ◌*◌, ◌^◌,
}
use taifa_exchange.Outcome.{◌>>=◌, Error, Result, err, ok, plain, wrap, status_error}
use taifa_exchange.Taifaid.Dto.{
  ActorContextResponse, CapabilitiesResponse, ErrorEnvelope, ReadyResponse,
  ResolveActorContextRequest,
}
use taifa_exchange.Text.{trim_space}

pub data Method : Type 0 where
  get post : Method

-- An HTTP request of the client, with the headers that it sets.
pub record HttpRequest : Type 0 where
  pub method : Method
  pub url : String
  pub headers : List (String × String)
  pub body : Option ResolveActorContextRequest

-- The body of an answer: its text, or the error of reading it, and what decoding gives.
pub record Body : Type 0 where
  pub content : Result String
  pub as_ready : Result ReadyResponse
  pub as_actor_context : Result ActorContextResponse
  pub as_capabilities : Result CapabilitiesResponse
  pub as_error : Result ErrorEnvelope

pub record HttpResponse : Type 0 where
  pub status_code : ℕ
  pub body : Body

-- The network: `http.NewRequestWithContext`, which refuses a malformed URL, `http.Client.Do`, and
-- `url.PathEscape`.
pub record Network : Type 0 where
  pub new_request : HttpRequest → Result HttpRequest
  pub send : HttpRequest → Result HttpResponse
  pub path_escape : String → String

pub record Client : Type 0 where
  pub base_url : String
  pub timeout : ℤ

-- `NewClient`; durations are nanoseconds.
unfoldable pub new_client : String → ℤ → Client
new_client base_url timeout = record {
  base_url = trim_right_code b'/' (trim_space base_url);
  timeout = if ltb_ℤ (pos 0) timeout then timeout else pos (10 * 10 ^ 9);
}

-- `(*Client).IsConfigured`; a nil client is `none`.
unfoldable pub is_configured : Option Client → Bool
is_configured none = false
is_configured (some c) = not (c.base_url == "")

abbrev pub base_of : Option Client → String
base_of none = ""
base_of (some c) = c.base_url

abbrev pub not_configured : Error
not_configured = plain "taifa-id client is not configured"

abbrev pub correlation_header : String → List (String × String)
correlation_header correlation_id =
    if correlation_id == "" then [] else ("X-Correlation-ID", correlation_id) ∷ []

-- `response.StatusCode < 200 || response.StatusCode >= 300`
abbrev pub failed : HttpResponse → Bool
failed r = ltb r.status_code 200 || leb 300 r.status_code

-- The error with the text of the body.
abbrev text_error : String → ℕ → String → Error
text_error fallback status s =
    if trim_space s == ""
    then status_error fallback status ""
    else status_error fallback status ("body=" ⋯ trim_space s)

-- `decodeHTTPError`, for a body that the limit of 1 MiB does not cut.
unfoldable pub decode_http_error : HttpResponse → String → Error
decode_http_error response fallback = elim response.body.content [
  | err e ↦ status_error fallback response.status_code ""
  | ok content ↦ elim response.body.as_error [
    | err e ↦ text_error fallback response.status_code content
    | ok envelope ↦
        if envelope.error.message == ""
        then text_error fallback response.status_code content
        else status_error fallback response.status_code
            ("code=" ⋯ (envelope.error.code ⋯ (" message=" ⋯ envelope.error.message)))
  ]
]

module _ (network : Network) where
  -- Sending a request, from `http.NewRequestWithContext` to the test of the status code.
  unfoldable pub exchange : String → String → String → HttpRequest → Result HttpResponse
  exchange creating calling failing request = do
    created ← wrap creating (network.new_request request)
    response ← wrap calling (network.send created)
    if failed response then err (decode_http_error response failing) else ok response

  -- `(*Client).postJSON`, with the decoding of its answer.
  unfoldable pub post_json :
      {A : Type 0}
      → Option Client
      → String
      → String
      → ResolveActorContextRequest
      → (Body → Result A)
      → Result A
  unfolding exchange
  post_json client path correlation_id payload decode = do
    response ←
        exchange "create taifa-id request" "call taifa-id" "taifa-id request failed" (record {
          method = post;
          url = base_of client ⋯ path;
          headers =
              ("Content-Type", "application/json")
              ∷ ("Accept", "application/json")
              ∷ correlation_header correlation_id;
          body = some payload;
        })
    wrap "decode taifa-id response" (decode response.body)

  -- `(*Client).ResolveActorContext`
  unfoldable pub resolve_actor_context :
      Option Client → String → String → String → Result ActorContextResponse
  resolve_actor_context client token organization_id correlation_id =
      if not (is_configured client)
      then err not_configured
      else if trim_space token == ""
      then err (plain "token is required")
      else if trim_space organization_id == ""
      then err (plain "organization_id is required")
      else post_json client "/api/v1/actor-context/resolve" correlation_id
          (record { token = trim_space token; organization_id = trim_space organization_id })
          (λ b. b.as_actor_context)

  -- `(*Client).ListOrganizationCapabilities`
  unfoldable pub list_organization_capabilities :
      Option Client → String → String → Result CapabilitiesResponse
  unfolding exchange
  list_organization_capabilities client organization_id correlation_id =
      if not (is_configured client)
      then err not_configured
      else if trim_space organization_id == ""
      then err (plain "organization_id is required")
      else do
        response ←
            exchange "create taifa-id capabilities request" "call taifa-id capabilities"
              "taifa-id capabilities lookup failed"
              (record {
                method = get;
                url =
                    base_of client
                    ⋯ ("/api/v1/organizations/"
                        ⋯ (network.path_escape (trim_space organization_id) ⋯ "/capabilities"));
                headers = correlation_header correlation_id;
                body = none;
              })
        wrap "decode taifa-id capabilities response" response.body.as_capabilities

  abbrev pub check_status : ReadyResponse → Result ReadyResponse
  check_status ready =
      if ready.status == "ok" then ok ready else err (plain "taifa-id readiness status")

  -- `(*Client).Ready`, less the status that its last error quotes.
  unfoldable pub ready : Option Client → String → Result ReadyResponse
  unfolding exchange
  ready client correlation_id = if not (is_configured client) then err not_configured else do
    response ←
        exchange "create taifa-id readiness request" "call taifa-id readiness"
          "taifa-id readiness failed"
          (record {
            method = get;
            url = base_of client ⋯ "/readyz";
            headers = correlation_header correlation_id;
            body = none;
          })
    decoded ← wrap "decode taifa-id readiness response" response.body.as_ready
    check_status decoded
