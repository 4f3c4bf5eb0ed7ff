-- ===== src/Exchange/Handler.antt =====
-- internal/exchange/handler.go
pub mod Bearer
pub mod Names
pub mod Members
pub mod Decoding
pub mod Unknown
pub mod Recorded
pub mod Laws
use taifa_exchange.Exchange.Service.{Service, Surroundings, authorize}
use taifa_exchange.Base.{List, Option, String, [], if◌then◌else◌, none, some, ◌==◌, ◌∷◌}
use taifa_exchange.Database.Session.{Session}
use taifa_exchange.Exchange.Model.{AuthorizeRequest, AuthorizeResult, decision_allow}
use taifa_exchange.Httpserver.Writer.{
  Context, Request, Writer, correlation_id_from_context, error_code_internal,
  error_code_invalid_json, write_data, write_error,
}
use taifa_exchange.Json.{decode_text, Fields, Json, end, field, null, obj}
use taifa_exchange.Outcome.{◌>>=◌, Result, err, ok, plain, wrap}
use taifa_exchange.Text.{Unicode, trim_space}
use taifa_exchange.Text.Fields.{equal_fold, fields}

-- `exchange.Handler`
pub record Handler : Type 0 where
  pub service : Option Service

-- `exchange.NewHandler`
abbrev pub new_handler : Option Service → Handler
new_handler service = record { service = service }

abbrev pub empty_request : AuthorizeRequest
empty_request = record {
  organization_id = "";
  target_system = "";
  route = "";
  method = "";
  operation = "";
}

-- One member of the object: its name is matched without regard to letter case, and an unknown one
-- is an error (`DisallowUnknownFields`).
unfoldable pub decode_member : AuthorizeRequest → String → Json → Result AuthorizeRequest
decode_member r name value =
    if equal_fold name "organization_id"
    then (do v ← decode_text r.organization_id value; ok (record r { organization_id = v }))
    else if equal_fold name "target_system"
    then (do v ← decode_text r.target_system value; ok (record r { target_system = v }))
    else if equal_fold name "route"
    then (do v ← decode_text r.route value; ok (record r { route = v }))
    else if equal_fold name "method"
    then (do v ← decode_text r.method value; ok (record r { method = v }))
    else if equal_fold name "operation"
    then (do v ← decode_text r.operation value; ok (record r { operation = v }))
    else err (plain "json: unknown field")

unfoldable pub decode_members : AuthorizeRequest → Fields → Result AuthorizeRequest
unfolding decode_member
decode_members r end = ok r
decode_members r (field name value rest) = do
  r' ← decode_member r name value
  decode_members r' rest

abbrev decode_value : Json → Result AuthorizeRequest
decode_value null = ok empty_request
decode_value (obj members) = decode_members empty_request members
decode_value _ = err (plain "json: cannot unmarshal into Go value of type AuthorizeRequest")

-- `httpserver.DecodeJSON(r, &request)`
unfoldable pub decode_json : Request → Result AuthorizeRequest
unfolding decode_members
decode_json r = elim r.body [
  | none ↦ err (plain "request body is empty")
  | some body ↦ wrap "decode json" (do json ← body; decode_value json)
]

-- `strings.Fields(header)` has two fields and the first is "Bearer": the token is the second.
abbrev bearer_of : List String → String
bearer_of (scheme ∷ token ∷ []) = if equal_fold scheme "Bearer" then trim_space token else ""
bearer_of _ = ""

-- `bearerTokenFromRequest`, for a request that is not nil.
unfoldable pub bearer_token_from_request : Request → String
bearer_token_from_request r =
    let header = trim_space r.authorization in
    if header == "" then "" else bearer_of (fields header)

-- The answer to the result of Authorize.
unfoldable pub respond : Context → Result AuthorizeResult → Writer → Writer
respond context (err e) w =
    write_error context 500 error_code_internal "Exchange could not complete authorization." w
respond context (ok result) w =
    if result.decision_record.decision == decision_allow
    then write_data context 200 result.response w
    else write_error context result.http_status_code result.error_code result.error_message w

module _ ⦃u : Unicode⦄ where
  -- `Handler.Authorize`; a nil handler is `none`.
  unfoldable pub handle :
      Surroundings → Option Handler → Request → Context → Writer → Session → Writer × Session
  unfolding respond decode_json bearer_token_from_request correlation_id_from_context
  handle env handler r context w s = elim (decode_json r) [
    | err e ↦
        (write_error context 400 error_code_invalid_json "Request body must be valid JSON." w, s)
    | ok request ↦ elim handler [
      | none ↦ (
        write_error context 503 error_code_internal "Exchange authorization service is unavailable."
            w,
        s,
      )
      | some h ↦ elim h.service [
        | none ↦ (
          write_error context 503 error_code_internal
              "Exchange authorization service is unavailable." w,
          s,
        )
        | some service ↦
            let (result, s') =
              authorize env (some service)
                (record {
                  token = bearer_token_from_request r;
                  correlation_id = correlation_id_from_context context;
                  request = request;
                })
                s in
            (respond context result w, s')
      ]
    ]
  ]
