-- ===== src/Exchange/Service/Course.antt =====
-- About internal/exchange/service.go, Authorize: the ways that a run can take, as a relation
-- between the request, the answers, the tables and the result.
use taifa_exchange.Exchange.Service.{
  Service, Surroundings, authorization_input, client_of, evaluated, initial_decision,
  policy_service_of,
}
use taifa_exchange.Base.{Option, String, [], code, false, none, some, true, ℕ, ◌≡◌, ◌≢◌}
use taifa_exchange.Database.Session.{Pool, Session, Db}
use taifa_exchange.Database.Tables.{Tables}
use taifa_exchange.Exchange.Model.{
  AuthorizeInput, AuthorizeRequest, AuthorizeResult, DecisionRecord, actor_context_resolve_failed,
  decision_allow, error_code_forbidden, error_code_unauthorized, error_code_unavailable,
  organization_capabilities_lookup_failed, policy_evaluation_failed, taifa_id_client_not_configured,
}
use taifa_exchange.Exchange.Request.{
  Refusal, normalize_authorize_request, validate_request_for_authorization,
}
use taifa_exchange.Exchange.Results.{
  allow_result, collect_actor_roles, collect_capabilities, deny_result, message_for_status,
}
use taifa_exchange.Outcome.{Error, Result, err, ok, wrapped}
use taifa_exchange.Policy.Model.{AuthorizationInput, EvaluationResult}
use taifa_exchange.Policy.Service.Laws.{expected}
use taifa_exchange.Taifaid.Client.{
  is_configured, list_organization_capabilities, resolve_actor_context,
}
use taifa_exchange.Taifaid.Dto.{ActorContextResponse, CapabilitiesResponse}
use taifa_exchange.Text.{Unicode, trim_space}

module _ ⦃u : Unicode⦄ (env : Surroundings) (service : Option Service)
    (input : AuthorizeInput) where
  abbrev pub request : AuthorizeRequest
  request = normalize_authorize_request input.request

  abbrev pub token : String
  token = trim_space input.token

  abbrev pub correlation_id : String
  correlation_id = trim_space input.correlation_id

  abbrev pub first_record : DecisionRecord
  first_record = initial_decision env service request correlation_id

  abbrev pub refusal : Refusal
  refusal = validate_request_for_authorization request token

  -- The answers of the identity service.
  abbrev pub actor_answer : Result ActorContextResponse
  actor_answer =
      resolve_actor_context env.network (client_of service) token request.organization_id
        correlation_id

  abbrev pub capabilities_answer : Result CapabilitiesResponse
  capabilities_answer =
      list_organization_capabilities env.network (client_of service) request.organization_id
        correlation_id

  abbrev pub actor_record : ActorContextResponse → DecisionRecord
  actor_record a = record first_record {
    taifa_id_correlation_id = a.correlation_id;
    actor_context_id = a.content.actor_context_id;
    person_id = a.content.person_id;
    credential_id = a.content.credential_id;
    session_id = a.content.session_id;
    actor_roles = some (collect_actor_roles a.content);
  }

  abbrev pub full_record : ActorContextResponse → CapabilitiesResponse → DecisionRecord
  full_record a c = record (actor_record a) {
    organization_capabilities = some (collect_capabilities c.content);
  }

  -- The question that the policy service is asked.
  abbrev pub question : ActorContextResponse → CapabilitiesResponse → AuthorizationInput
  question a c =
      authorization_input env service request (collect_actor_roles a.content)
        (collect_capabilities c.content)

  -- A valid request, and a client that could ask the identity service.
  pub record IsAsked : Type 0 where
    pub valid : refusal.deny_reason ≡ ""
    pub configured : is_configured (client_of service) ≡ true

  -- Both answers came back.
  pub record Answered (a : ActorContextResponse) (c : CapabilitiesResponse) : Type 0 where
    pub asked : IsAsked
    pub actor : actor_answer ≡ ok a
    pub capabilities : capabilities_answer ≡ ok c

  -- The policy service and its pool.
  abbrev pub HasPool : Pool → Type 0
  HasPool pool = policy_service_of service ≡ some (record { repository = some (some pool) })

  abbrev pub evaluation :
      Pool → Tables → ActorContextResponse → CapabilitiesResponse → EvaluationResult
  evaluation pool t a c = expected pool (question a c) t

  abbrev pub refused : DecisionRecord → String → ℕ → String → String → AuthorizeResult
  refused decision reason status code message =
      deny_result (record decision { deny_reason = reason }) status code message

  -- Why a result is what it is, over the tables at the time of the call.
  pub data Explained (t : Tables) (result : AuthorizeResult) : Type 0 where
    invalid_request :
        refusal.deny_reason ≢ ""
        → result
          ≡ refused first_record refusal.deny_reason refusal.status_code refusal.error_code
              (message_for_status refusal.status_code)
        → Explained t result
    no_client :
        refusal.deny_reason ≡ ""
        → is_configured (client_of service) ≡ false
        → result
          ≡ refused first_record taifa_id_client_not_configured 503 error_code_unavailable
              "Exchange upstream identity dependency is unavailable."
        → Explained t result
    no_actor :
        IsAsked
        → (e : Error) → actor_answer ≡ err e
        → result
          ≡ refused first_record actor_context_resolve_failed 401 error_code_unauthorized
              "Exchange could not validate the actor context."
        → Explained t result
    no_capabilities :
        IsAsked
        → (a : ActorContextResponse) (e : Error) → actor_answer ≡ ok a
        → capabilities_answer ≡ err e
        → result
          ≡ refused
              (actor_record a)
              organization_capabilities_lookup_failed
              502
              error_code_unavailable
              "Exchange could not validate organization capabilities."
        → Explained t result
    no_policy_service :
        (a : ActorContextResponse) (c : CapabilitiesResponse)
        → Answered a c
        → policy_service_of service ≡ none
        → result
          ≡ refused
              (full_record a c)
              policy_evaluation_failed
              503
              error_code_unavailable
              "Exchange policy service is unavailable."
        → Explained t result
    denied :
        (a : ActorContextResponse) (c : CapabilitiesResponse) (pool : Pool)
        → Answered a c
        → HasPool pool
        → (evaluation pool t a c).decision ≢ decision_allow
        → result
          ≡ deny_result
              (evaluated env service (full_record a c) (evaluation pool t a c))
              403
              error_code_forbidden
              "Exchange policy denied the request."
        → Explained t result
    allowed :
        (a : ActorContextResponse) (c : CapabilitiesResponse) (pool : Pool)
        → Answered a c
        → HasPool pool
        → (evaluation pool t a c).decision ≡ decision_allow
        → result
          ≡ allow_result (evaluated env service (full_record a c) (evaluation pool t a c)) a.content
        → Explained t result

  -- What a run does that ends with a result by `done`: it comes to an explained result, or the policy lookup fails, which it does
  -- only without a pool or with a failing call, and it ends with that error.
  pub data Course (done : AuthorizeResult → Db AuthorizeResult) (s : Session)
      (x : Result AuthorizeResult × Session) : Type 0 where
    concluded :
        (result : AuthorizeResult) (s₁ : Session)
        → s₁.tables ≡ s.tables
        → (s.faults ≡ [] → s₁.faults ≡ [])
        → Explained s.tables result
        → x ≡ done result s₁
        → Course done s x
    broken :
        (a : ActorContextResponse) (c : CapabilitiesResponse)
        → Answered a c
        → (e : Error) (s₁ : Session) → s₁.tables ≡ s.tables
        → policy_service_of service ≢ none
        → (s.faults ≡ [] → (pool : Pool) → ¬ HasPool pool)
        → x ≡ (err (wrapped "evaluate exchange policy" e), s₁)
        → Course done s x
