-- ===== src/Tests/Authorizations.antt =====
-- Runs of internal/exchange/service.go and repository.go on the data of the fixtures.
use taifa_exchange.Exchange.Service.{
  authorize, conclude, decide, initial_decision, persist, settle, with_actor, with_capabilities,
  repository_of, Service, authorize_by,
}
use taifa_exchange.Tests.Fixtures.{ascii_only, environment, input, service, session, claim, pool}
use taifa_exchange.Exchange.Model.{
  AuthorizeResult, decision_allow, is_known_method, is_known_target_system,
  normalize_method_for_decision, normalize_target_system_for_decision,
}
use taifa_exchange.Outcome.{Result, ok, err}
use taifa_exchange.Base.{some, String, ◌≡◌, refl, [], contains, inr, ◌↔◌, ◌∷◌, ◌⊎◌, none, ◌≢◌}
use taifa_exchange.Audit.Event.{Event, with_defaults}
use taifa_exchange.Audit.Outbox.{insert, null_if_empty, outbox_row}
use taifa_exchange.Database.Session.{call, in_tx, Pool}
use taifa_exchange.Database.Statements.{
  capabilities_of, decision_exists, find_policy_row, insert_decision_row, insert_outbox_row,
  outbox_exists, policy_exists, roles_of, sort,
}
use taifa_exchange.Database.Tables.{decision_row_ok}
use taifa_exchange.Exchange.Repository.{create_decision_with_audit, decision_row, insert_decision}
use taifa_exchange.Exchange.Request.{
  normalize_authorize_request, validate_request_for_authorization,
}
use taifa_exchange.Exchange.Request.Laws.{IsValid, validate-IsValid_iff}
use taifa_exchange.Exchange.Results.{
  allow_result, append_roles, audit_event_for_result, collect_actor_roles, collect_capabilities,
  event_type_of, normalize_strings, string_slice_loop,
}
use taifa_exchange.Exchange.Results.Laws.{normalize_strings-normalize_string_slice}
use taifa_exchange.Exchange.Service.Laws.{Recordable}
use taifa_exchange.Exchange.Service.Outcomes.{Kept, authorize-ok, authorize_atomic}
use taifa_exchange.Exchange.Service.Decisions.{
  Granted, IsAllow, IsDeny, authorize-allow_iff, authorize_shape,
}
use taifa_exchange.Exchange.Service.Total.{IsSound, authorize_total}
use taifa_exchange.Ids.{hex, new_audit_event_id, new_decision_id, new_id}
use taifa_exchange.Policy.Evaluator.{
  apply_policy, check_requirements, evaluate, has_any_required_role, missing_required_capabilities,
  any_role_loop, missing_loop,
}
use taifa_exchange.Policy.Model.{lookup_input, normalized}
use taifa_exchange.Policy.Normalize.{normalize_string_set, normalize_string_slice, slice_loop}
use taifa_exchange.Policy.Repository.{
  find_by_route, list_policy_capabilities, list_policy_roles, query_policy,
}
use taifa_exchange.Policy.Service.{answer, service_evaluate}
use taifa_exchange.Taifaid.Client.{
  exchange, is_configured, list_organization_capabilities, post_json, resolve_actor_context,
}
use taifa_exchange.Text.{
  ascii_upper, is_space, normal, nth, to_upper, trim_left, trim_right, trim_space, upper_by,
}
use taifa_exchange.Exchange.Service.Unrecorded.{authorize_unrecorded}

abbrev decision_of : Result AuthorizeResult → String
decision_of (ok r) = r.decision_record.decision
decision_of (err e) = ""

-- The request of the fixtures is allowed.
allowed : decision_of (authorize environment (some service) input session).0 ≡ "ALLOW"
unfolding any_role_loop missing_loop authorize authorize_by validate_request_for_authorization
    trim_space is_space trim_left trim_right normalize_authorize_request normal to_upper upper_by
    ascii_upper nth is_known_target_system normalize_target_system_for_decision contains
    is_known_method normalize_method_for_decision is_configured with_actor resolve_actor_context
    post_json exchange list_organization_capabilities with_capabilities decide collect_actor_roles
    collect_capabilities append_roles normalize_strings string_slice_loop settle service_evaluate
    find_by_route query_policy list_policy_roles list_policy_capabilities call find_policy_row
    roles_of capabilities_of sort lookup_input normalized answer evaluate apply_policy
    check_requirements has_any_required_role missing_required_capabilities normalize_string_set
    normalize_string_slice slice_loop conclude persist create_decision_with_audit in_tx
    insert_decision insert_decision_row decision_row decision_row_ok decision_exists policy_exists
    insert insert_outbox_row outbox_row with_defaults outbox_exists audit_event_for_result
    allow_result event_type_of initial_decision null_if_empty new_decision_id new_audit_event_id
    new_id hex
allowed = refl

sound : IsSound environment (some service) input session
sound = record {
  quiet = refl;
  pool = pool;
  has_repository = refl;
  policies = inr (pool, refl);
  new_decision = unfold decision_exists in refl;
  new_event = unfold outbox_exists in refl;
}

-- The result of the run.
pub came : (r : AuthorizeResult) × ((authorize environment (some service) input session).0 ≡ ok r)
came = authorize_total environment (some service) input session sound

authorize_total_example :
    (r : AuthorizeResult) × ((authorize environment (some service) input session).0 ≡ ok r)
authorize_total_example = authorize_total environment (some service) input session sound

authorize-ok_example :
    Kept environment
      (some service)
      input
      session
      came.0
      (authorize environment (some service) input session).1.tables
authorize-ok_example = authorize-ok environment (some service) input session came.0 came.1

authorize_atomic_example :
    ((authorize environment (some service) input session).1.tables ≡ session.tables)
    ⊎ ((r : AuthorizeResult) × Kept environment
          (some service)
          input
          session
          r
          (authorize environment (some service) input session).1.tables)
authorize_atomic_example = authorize_atomic environment (some service) input session

authorize-allow_iff_example :
    (came.0.decision_record.decision ≡ decision_allow)
    ↔ Granted environment (some service) input session
authorize-allow_iff_example =
    authorize-allow_iff environment (some service) input session came.0 came.1

authorize_shape_example :
    IsAllow environment (some service) input session came.0
    ⊎ IsDeny environment (some service) input session came.0
authorize_shape_example = authorize_shape environment (some service) input session came.0 came.1

fits : Recordable environment came.0 session.tables
fits = (authorize-ok environment (some service) input session came.0 came.1).fits

abbrev event : Event
event = audit_event_for_result environment.event_draw came.0

validate-IsValid_iff_example :
    ((validate_request_for_authorization claim "secret").deny_reason ≡ "") ↔ IsValid claim "secret"
validate-IsValid_iff_example = validate-IsValid_iff claim "secret"

normalize_strings-normalize_string_slice_example :
    normalize_strings (" a" ∷ "A" ∷ "" ∷ []) ≡ normalize_string_slice (" a" ∷ "A" ∷ "" ∷ [])
normalize_strings-normalize_string_slice_example =
    normalize_strings-normalize_string_slice (" a" ∷ "A" ∷ "" ∷ [])

-- The service without a database.
abbrev unstored : Service
unstored = record service { repository = some none }

no_pool : (p : Pool) → repository_of (some unstored) ≢ some (some p)
no_pool p h = cc

authorize_unrecorded_example : (authorize environment (some unstored) input session).0 ≢ ok came.0
authorize_unrecorded_example =
    authorize_unrecorded environment (some unstored) input session no_pool came.0
