-- ===== src/Tests/Handling.antt =====
-- Runs of internal/exchange/handler.go and routes.go on the data of the fixtures.
use taifa_exchange.Exchange.Service.{
  authorize, conclude, decide, initial_decision, persist, settle, with_actor, with_capabilities,
  authorize_by,
}
use taifa_exchange.Tests.Fixtures.{
  ascii_only, environment, service, session, claim, draw, pool, client,
}
use taifa_exchange.Exchange.Model.{
  is_known_method, is_known_target_system, normalize_method_for_decision,
  normalize_target_system_for_decision,
}
use taifa_exchange.Outcome.{ok}
use taifa_exchange.Base.{some, ◌≡◌, refl, contains, ne_of_test, ◌↔◌, inl, inr, none, []}
use taifa_exchange.Audit.Event.{with_defaults}
use taifa_exchange.Audit.Outbox.{insert, null_if_empty, outbox_row}
use taifa_exchange.Database.Session.{call, in_tx}
use taifa_exchange.Database.Statements.{
  capabilities_of, decision_exists, find_policy_row, insert_decision_row, insert_outbox_row,
  outbox_exists, policy_exists, roles_of, sort,
}
use taifa_exchange.Database.Tables.{decision_row_ok}
use taifa_exchange.Exchange.Handler.{
  bearer_token_from_request, decode_json, decode_member, decode_members, handle, respond,
}
use taifa_exchange.Exchange.Handler.Bearer.{Bears, bearer_token_iff}
use taifa_exchange.Exchange.Handler.Laws.{response, status_of}
use taifa_exchange.Exchange.Repository.{create_decision_with_audit, decision_row, insert_decision}
use taifa_exchange.Exchange.Request.{
  normalize_authorize_request, validate_request_for_authorization,
}
use taifa_exchange.Exchange.Results.{
  allow_result, append_roles, audit_event_for_result, collect_actor_roles, collect_capabilities,
  event_type_of, normalize_strings, string_slice_loop,
}
use taifa_exchange.Httpserver.Middleware.{fresh_writer}
use taifa_exchange.Httpserver.Writer.{
  Request, correlation_id_from_context, set_header, write_data, write_header, write_json,
  http_error, write,
}
use taifa_exchange.Ids.{hex, new_audit_event_id, new_decision_id, new_id}
use taifa_exchange.Json.{end, field, obj, str, Fields}
use taifa_exchange.Policy.Evaluator.{
  apply_policy, check_requirements, evaluate, has_any_required_role, missing_required_capabilities,
  any_role_loop, missing_loop,
}
use taifa_exchange.Policy.Model.{lookup_input, normalized}
use taifa_exchange.Policy.Normalize.{normalize_string_set, normalize_string_slice, slice_loop}
use taifa_exchange.Policy.Repository.{
  find_by_route, list_policy_capabilities, list_policy_roles, query_policy,
}
use taifa_exchange.Policy.Service.{answer, service_evaluate}
use taifa_exchange.Taifaid.Client.{
  exchange, is_configured, list_organization_capabilities, post_json, resolve_actor_context,
}
use taifa_exchange.Text.{
  ascii_upper, is_space, normal, nth, to_upper, trim_left, trim_right, trim_space, upper_by,
}
use taifa_exchange.Json.{Json, null}
use taifa_exchange.Exchange.Handler.{decode_member, decode_members}
use taifa_exchange.Text.Fields.{equal_fold}
use taifa_exchange.Exchange.Handler.Decoding.{Decodes, decode_json-Decodes_iff, with_body}
use taifa_exchange.App.{exchange_server}
use taifa_exchange.Tests.Fixtures.{config}
use taifa_exchange.App.Route.{serve_authorize, serve_authorize-Answered, Answered}
use taifa_exchange.Exchange.Handler.Unknown.{handle_unknown_field}
use taifa_exchange.Exchange.Handler.Recorded.{GrantedAndKept, handle-GrantedAndKept}
use taifa_exchange.Text.Fields.{equal_fold, fields, flush, fold_code, split_words}

abbrev http_request : Request
http_request = record {
  method = "POST";
  path = "/api/v1/exchange/authorize";
  authorization = "bearer secret";
  x_correlation_id = "";
  body = some (
      ok (
        obj (
          field "organization_id" (str "ORG-1") (
            field "target_system" (str "TAIFA_CARE") (
              field "route" (str "/claims")
                (field "method" (str "POST") (field "operation" (str "claim") end)))))));
  writes = [];
}

bearer_token_iff_example :
    (bearer_token_from_request http_request ≡ "secret") ↔ Bears http_request.authorization "secret"
bearer_token_iff_example = bearer_token_iff http_request "secret" (ne_of_test "secret" "" refl)

-- A body with names in another letter case, a name that comes twice, and a null.
abbrev respelled : Json
respelled = obj (
    field "Route" (str "/old") (
      field "ROUTE" (str "/claims") (
        field "route" null (
          field "operation" (str "claim") (
            field "method" (str "post") (
              field "target_system" (str "taifa_care")
                (field "Organization_ID" (str " ORG-1 ") end)))))))

decode_json-respelled : decode_json (with_body http_request respelled) ≡ ok claim
unfolding decode_json decode_members decode_member equal_fold
decode_json-respelled = refl

decode_json-Decodes_iff_example :
    (decode_json (with_body http_request respelled) ≡ ok claim)
    ↔ Decodes (with_body http_request respelled) claim
decode_json-Decodes_iff_example = decode_json-Decodes_iff (with_body http_request respelled) claim

-- The handler answers the request with 200.
sent_200 :
    status_of
      (response environment service http_request
        (some "corr-1")
        (fresh_writer http_request)
        session).sent
    ≡ 200
unfolding handle respond decode_json decode_members decode_member equal_fold fold_code
    bearer_token_from_request fields split_words flush correlation_id_from_context write_data
    write_json write http_error write_header set_header any_role_loop missing_loop authorize
    authorize_by validate_request_for_authorization trim_space is_space trim_left trim_right
    normalize_authorize_request normal to_upper upper_by ascii_upper nth is_known_target_system
    normalize_target_system_for_decision contains is_known_method normalize_method_for_decision
    is_configured with_actor resolve_actor_context post_json exchange list_organization_capabilities
    with_capabilities decide collect_actor_roles collect_capabilities append_roles normalize_strings
    string_slice_loop settle service_evaluate find_by_route query_policy list_policy_roles
    list_policy_capabilities call find_policy_row roles_of capabilities_of sort lookup_input
    normalized answer evaluate apply_policy check_requirements has_any_required_role
    missing_required_capabilities normalize_string_set normalize_string_slice slice_loop conclude
    persist create_decision_with_audit in_tx insert_decision insert_decision_row decision_row
    decision_row_ok decision_exists policy_exists insert insert_outbox_row outbox_row with_defaults
    outbox_exists audit_event_for_result allow_result event_type_of initial_decision null_if_empty
    new_decision_id new_audit_event_id new_id hex
sent_200 = refl

handle-GrantedAndKept_example :
    GrantedAndKept environment service http_request
      (some "corr-1")
      (fresh_writer http_request)
      session
handle-GrantedAndKept_example =
    handle-GrantedAndKept environment service http_request (some "corr-1")
      (fresh_writer http_request) session refl sent_200

serve_authorize-Answered_example :
    Answered environment config (some pool) (some client) draw http_request session (
      serve_authorize environment
        (exchange_server config (some pool) (some client))
        draw
        http_request
        session)
serve_authorize-Answered_example =
    serve_authorize-Answered environment config (some pool) (some client) draw http_request session

-- An object with a member that is no field.
abbrev unknown_members : Fields
unknown_members = field "Route" (str "/claims") (field "token" (str "secret") end)

handle_unknown_field_example :
    (status_of
        (handle environment none
          (with_body http_request (obj unknown_members))
          (some "corr-1")
          (fresh_writer http_request)
          session).0.sent
      ≡ 400)
    × ((handle environment none
          (with_body http_request (obj unknown_members))
          (some "corr-1")
          (fresh_writer http_request)
          session).1
        ≡ session)
unfolding equal_fold fold_code
handle_unknown_field_example =
    handle_unknown_field environment none (with_body http_request (obj unknown_members))
      (some "corr-1") (fresh_writer http_request) session unknown_members refl
      (inr (inl (refl, refl, refl, refl, refl))) refl
