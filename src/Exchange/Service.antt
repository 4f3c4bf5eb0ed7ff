-- ===== src/Exchange/Service.antt =====
-- internal/exchange/service.go: Authorize. Its early returns are the branches of four functions,
-- one for each dependency that it asks.
pub mod Course
pub mod Run
pub mod Lookups
pub mod Legible
pub mod Laws
pub mod Outcomes
pub mod Decisions
pub mod Total
pub mod Unrecorded
use taifa_exchange.Database.Session.{◌>>=◌, ◌>>◌, Db, Pool, pure, raise, wrapping}
use taifa_exchange.Policy.Service as PolicyService
use taifa_exchange.Base.{List, Option, String, if◌then◌else◌, none, not, some, ℕ, ◌==◌}
use taifa_exchange.Exchange.Model.{
  AuthorizeInput, AuthorizeRequest, AuthorizeResult, DecisionRecord, actor_context_resolve_failed,
  decision_allow, decision_deny, error_code_forbidden, error_code_unauthorized,
  error_code_unavailable, normalize_method_for_decision, normalize_operation,
  normalize_organization_id, normalize_route, normalize_target_system_for_decision,
  organization_capabilities_lookup_failed, policy_evaluation_failed, taifa_id_client_not_configured,
}
use taifa_exchange.Exchange.Repository.{create_decision_with_audit}
use taifa_exchange.Exchange.Request.{
  normalize_authorize_request, validate_request_for_authorization,
}
use taifa_exchange.Exchange.Results.{
  allow_result, audit_event_for_result, collect_actor_roles, collect_capabilities, deny_result,
  message_for_status,
}
use taifa_exchange.Ids.{Draw, new_decision_id}
use taifa_exchange.Outcome.{err, ok, plain, Result}
use taifa_exchange.Policy.Model.{AuthorizationInput, EvaluationResult}
use taifa_exchange.Policy.Service.{service_evaluate}
use taifa_exchange.Taifaid.Client.{
  Client, Network, is_configured, list_organization_capabilities, resolve_actor_context,
}
use taifa_exchange.Taifaid.Dto.{ActorContext, ActorContextResponse, CapabilitiesResponse}
use taifa_exchange.Text.{Unicode, trim_space}

-- `exchange.Service`; each of its dependencies can be nil.
pub record Service : Type 0 where
  pub repository : Option (Option Pool)
  pub policy_service : Option PolicyService.Service
  pub taifa_id_client : Option Client

-- `exchange.NewService`
abbrev pub new_service :
    Option (Option Pool) → Option PolicyService.Service → Option Client → Service
new_service repository policy_service client = record {
  repository = repository;
  policy_service = policy_service;
  taifa_id_client = client;
}

-- What one call of Authorize reads from its surroundings.
pub record Surroundings : Type 0 where
  pub network : Network
  pub decision_draw : Draw
  pub created_at : ℕ
  pub event_draw : Draw
  pub insert_draw : Draw

abbrev pub repository_of : Option Service → Option (Option Pool)
repository_of none = none
repository_of (some s) = s.repository

abbrev pub client_of : Option Service → Option Client
client_of none = none
client_of (some s) = s.taifa_id_client

abbrev pub policy_service_of : Option Service → Option PolicyService.Service
policy_service_of none = none
policy_service_of (some s) = s.policy_service

module _ ⦃u : Unicode⦄ (env : Surroundings) (service : Option Service) where
  persist_in : Option (Option Pool) → AuthorizeResult → Db (Unit {0})
  persist_in none result = raise (plain "exchange service repository is not configured")
  persist_in (some repository) result = wrapping "persist exchange authorization decision" (
      create_decision_with_audit env.insert_draw (some repository) result.decision_record
        (audit_event_for_result env.event_draw result))

  -- `persist`
  unfoldable pub persist : AuthorizeResult → Db (Unit {0})
  unfolding persist_in
  persist = persist_in (repository_of service)

  -- `if err := s.persist(ctx, result); err != nil { … }; return result, nil`
  unfoldable pub conclude : AuthorizeResult → Db AuthorizeResult
  conclude result = do persist result; pure result

  abbrev pub evaluated : DecisionRecord → EvaluationResult → DecisionRecord
  evaluated decision e = record decision {
    decision = e.decision;
    matched_policy_id = e.matched_policy_id;
    deny_reason = e.deny_reason;
    required_roles = e.required_roles;
    required_capabilities = e.required_capabilities;
  }

  abbrev pub authorization_input : AuthorizeRequest → List String → List String → AuthorizationInput
  authorization_input request roles capabilities = record {
    target_system = request.target_system;
    method = request.method;
    route = request.route;
    operation = request.operation;
    actor_roles = roles;
    organization_capabilities = capabilities;
  }

  -- The record that Authorize starts from.
  unfoldable pub initial_decision : AuthorizeRequest → String → DecisionRecord
  initial_decision request correlation_id = record {
    id = new_decision_id env.decision_draw;
    decision = decision_deny;
    target_system = normalize_target_system_for_decision request.target_system;
    route = normalize_route request.route;
    method = normalize_method_for_decision request.method;
    operation = normalize_operation request.operation;
    organization_id = normalize_organization_id request.organization_id;
    actor_context_id = "";
    person_id = "";
    credential_id = "";
    session_id = "";
    matched_policy_id = "";
    deny_reason = "";
    request_correlation_id = correlation_id;
    taifa_id_correlation_id = "";
    actor_roles = none;
    organization_capabilities = none;
    required_roles = none;
    required_capabilities = none;
    created_at = env.created_at;
  }

-- Authorize for any way of ending with a result, `done`, which the code always does by persisting
-- and returning it.
module _ ⦃u : Unicode⦄ (env : Surroundings) (service : Option Service)
    (done : AuthorizeResult → Db AuthorizeResult) where
  -- A denial with a reason of the exchange.
  abbrev pub refuse : DecisionRecord → String → ℕ → String → String → Db AuthorizeResult
  refuse decision reason status_code error_code message =
      done (deny_result (record decision { deny_reason = reason }) status_code error_code message)

  -- From `decision.Decision = evaluation.Decision` on.
  unfoldable pub settle : ActorContext → DecisionRecord → EvaluationResult → Db AuthorizeResult
  settle actor_context decision evaluation =
      if evaluation.decision == decision_allow
      then done (allow_result (evaluated env service decision evaluation) actor_context)
      else done (
          deny_result (evaluated env service decision evaluation) 403 error_code_forbidden
            "Exchange policy denied the request.")

  -- From `if s.policyService == nil` on.
  unfoldable pub decide :
      Option PolicyService.Service
      → AuthorizeRequest
      → ActorContext
      → List String
      → List String
      → DecisionRecord
      → Db AuthorizeResult
  decide none request actor_context roles capabilities decision =
      refuse decision policy_evaluation_failed 503 error_code_unavailable
        "Exchange policy service is unavailable."
  decide (some policy_service) request actor_context roles capabilities decision = do
    evaluation ← wrapping "evaluate exchange policy" (
        PolicyService.service_evaluate (some policy_service)
          (authorization_input env service request roles capabilities))
    settle actor_context decision evaluation

  -- From the answer of ListOrganizationCapabilities on.
  unfoldable pub with_capabilities :
      Result CapabilitiesResponse
      → AuthorizeRequest
      → ActorContext
      → List String
      → DecisionRecord
      → Db AuthorizeResult
  with_capabilities (err e) request actor_context roles decision =
      refuse decision organization_capabilities_lookup_failed 502 error_code_unavailable
        "Exchange could not validate organization capabilities."
  with_capabilities (ok response) request actor_context roles decision =
      let capabilities = collect_capabilities response.content in
      decide (policy_service_of service) request actor_context roles capabilities
        (record decision { organization_capabilities = some capabilities })

  -- From the answer of ResolveActorContext on.
  unfoldable pub with_actor :
      Result ActorContextResponse → AuthorizeRequest → String → DecisionRecord → Db AuthorizeResult
  with_actor (err e) request correlation_id decision =
      refuse decision actor_context_resolve_failed 401 error_code_unauthorized
        "Exchange could not validate the actor context."
  with_actor (ok response) request correlation_id decision =
      let actor_context = response.content in
      let roles = collect_actor_roles actor_context in
      with_capabilities
        (list_organization_capabilities env.network (client_of service) request.organization_id
          correlation_id)
        request actor_context roles
        (record decision {
          taifa_id_correlation_id = response.correlation_id;
          actor_context_id = actor_context.actor_context_id;
          person_id = actor_context.person_id;
          credential_id = actor_context.credential_id;
          session_id = actor_context.session_id;
          actor_roles = some roles;
        })

  unfoldable pub authorize_by : AuthorizeInput → Db AuthorizeResult
  authorize_by input =
      let request = normalize_authorize_request input.request in
      let correlation_id = trim_space input.correlation_id in
      let token = trim_space input.token in
      let decision = initial_decision env service request correlation_id in
      let refusal = validate_request_for_authorization request token in
      if not (refusal.deny_reason == "")
      then refuse decision refusal.deny_reason refusal.status_code refusal.error_code
          (message_for_status refusal.status_code)
      else if not (is_configured (client_of service))
      then refuse decision taifa_id_client_not_configured 503 error_code_unavailable
          "Exchange upstream identity dependency is unavailable."
      else with_actor
          (resolve_actor_context env.network (client_of service) token request.organization_id
            correlation_id)
          request correlation_id decision

module _ ⦃u : Unicode⦄ (env : Surroundings) (service : Option Service) where
  -- `Service.Authorize`; a nil service is `none`.
  unfoldable pub authorize : AuthorizeInput → Db AuthorizeResult
  unfolding authorize_by
  authorize = authorize_by env service (conclude env service)

  -- What Authorize does before it persists a result: this is the result, or the error without one.
  unfoldable pub lookups : AuthorizeInput → Db AuthorizeResult
  unfolding authorize_by
  lookups = authorize_by env service pure
