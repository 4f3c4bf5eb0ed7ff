-- ===== src/Exchange/Results.antt =====
-- internal/exchange/service.go: the results, the audit event of a result, and what is collected
-- from the answers of the identity service.
pub mod Laws
use taifa_exchange.Policy.Model.{not_found}
use taifa_exchange.Audit.Event.{
  Event, action_authorize_request, event_actor_context_resolve_failed, event_authorization_allowed,
  event_authorization_denied, event_policy_not_found, resource_authorization_decision,
  result_allowed, result_denied, source_taifa_exchange,
}
use taifa_exchange.Base.{
  List, String, [], contains, eqb, if◌then◌else◌, map, none, some, true, ℕ, ◌++◌, ◌==◌, ◌∷◌,
}
use taifa_exchange.Database.Tables.{Value, text, texts}
use taifa_exchange.Exchange.Model.{
  AuthorizeResult, DecisionRecord, MembershipSummary, actor_context_resolve_failed, decision_allow,
  decision_deny, error_code_forbidden,
}
use taifa_exchange.Ids.{Draw, new_audit_event_id}
use taifa_exchange.Taifaid.Dto.{ActorContext, ActorMembership, OrganizationCapability}
use taifa_exchange.Text.{Unicode, normal, trim_space}

module _ ⦃u : Unicode⦄ where
  -- The loop of normalizeStringSlice, over the set of the texts that it has seen and its result.
  unfoldable pub string_slice_loop : List String → List String → List String → List String
  string_slice_loop seen out [] = out
  string_slice_loop seen out (v ∷ vs) =
      let value = normal v in
      let skip = string_slice_loop seen out vs in
      let add = string_slice_loop (value ∷ seen) (out ++ value ∷ []) vs in
      if value == "" then skip else if contains seen value then skip else add

  -- `normalizeStringSlice`, the copy of internal/exchange
  unfoldable pub normalize_strings : List String → List String
  unfolding string_slice_loop
  normalize_strings values = string_slice_loop [] [] values

-- `for _, membership := range … { values = append(values, membership.Roles...) }`
unfoldable pub append_roles : List String → List ActorMembership → List String
append_roles values [] = values
append_roles values (m ∷ ms) = append_roles (values ++ m.roles) ms

module _ ⦃u : Unicode⦄ where
  unfoldable pub collect_actor_roles : ActorContext → List String
  unfolding append_roles normalize_strings
  collect_actor_roles actor_context =
      normalize_strings (append_roles actor_context.roles actor_context.memberships)

  unfoldable pub collect_capabilities : List OrganizationCapability → List String
  unfolding normalize_strings
  collect_capabilities capabilities = normalize_strings (map (λ c. c.capability) capabilities)

  summarize_membership : ActorMembership → MembershipSummary
  unfolding normalize_strings
  summarize_membership membership =
      let id = trim_space membership.membership_id in
      record {
        id = if id == "" then trim_space membership.id else id;
        membership_type = membership.membership_type;
        roles = normalize_strings membership.roles;
      }

  unfoldable pub summarize_memberships : List ActorMembership → List MembershipSummary
  unfolding summarize_membership
  summarize_memberships memberships = map summarize_membership memberships

  unfoldable pub allow_result : DecisionRecord → ActorContext → AuthorizeResult
  unfolding summarize_memberships
  allow_result decision actor_context = record {
    decision_record = decision;
    response = some (record {
      decision_id = decision.id;
      decision = decision.decision;
      target_system = decision.target_system;
      route = decision.route;
      method = decision.method;
      operation = decision.operation;
      actor_context = record {
        actor_context_id = decision.actor_context_id;
        person_id = decision.person_id;
        credential_id = decision.credential_id;
        organization_id = decision.organization_id;
        session_id = decision.session_id;
        roles = decision.actor_roles;
        memberships = summarize_memberships actor_context.memberships;
      };
      matched_policy_id = decision.matched_policy_id;
      obligations = record { propagate_correlation_id = true; require_audit = true };
    });
    http_status_code = 200;
    error_code = "";
    error_message = "";
  }

unfoldable pub deny_result : DecisionRecord → ℕ → String → String → AuthorizeResult
deny_result decision status_code error_code error_message = record {
  decision_record = record decision { decision = decision_deny };
  response = none;
  http_status_code = if eqb status_code 0 then 403 else status_code;
  error_code = if error_code == "" then error_code_forbidden else error_code;
  error_message =
      if error_message == "" then "Exchange policy denied the request." else error_message;
}

unfoldable pub message_for_status : ℕ → String
message_for_status status_code =
    if eqb status_code 400
    then "Exchange authorization request was invalid."
    else if eqb status_code 401
    then "Exchange authorization requires a valid bearer token."
    else if eqb status_code 503
    then "Exchange dependency is unavailable."
    else "Exchange policy denied the request."

-- The type of the audit event of a decision.
unfoldable pub event_type_of : DecisionRecord → String
event_type_of decision =
    if decision.decision == decision_allow
    then event_authorization_allowed
    else if decision.deny_reason == actor_context_resolve_failed
    then event_actor_context_resolve_failed
    else if decision.deny_reason == not_found
    then event_policy_not_found
    else event_authorization_denied

abbrev pub payload_of : DecisionRecord → List (String × Value)
payload_of d =
    ("decision_id", text d.id)
    ∷ ("decision", text d.decision)
    ∷ ("target_system", text d.target_system)
    ∷ ("route", text d.route)
    ∷ ("method", text d.method)
    ∷ ("operation", text d.operation)
    ∷ ("organization_id", text d.organization_id)
    ∷ ("actor_context_id", text d.actor_context_id)
    ∷ ("person_id", text d.person_id)
    ∷ ("credential_id", text d.credential_id)
    ∷ ("session_id", text d.session_id)
    ∷ ("roles", texts d.actor_roles)
    ∷ ("organization_capabilities", texts d.organization_capabilities)
    ∷ ("matched_policy_id", text d.matched_policy_id)
    ∷ ("required_roles", texts d.required_roles)
    ∷ ("required_capabilities", texts d.required_capabilities)
    ∷ ("deny_reason", text d.deny_reason)
    ∷ ("taifa_id_correlation_id", text d.taifa_id_correlation_id)
    ∷ ("exchange_correlation_id", text d.request_correlation_id)
    ∷ []

module _ ⦃u : Unicode⦄ where
  unfoldable pub audit_event_for_result : Draw → AuthorizeResult → Event
  unfolding event_type_of
  audit_event_for_result d result =
      let decision = result.decision_record in
      record {
        id = new_audit_event_id d;
        event_type = event_type_of decision;
        source_system = source_taifa_exchange;
        subject_id = decision.organization_id;
        actor_id = decision.person_id;
        resource_type = resource_authorization_decision;
        resource_id = decision.id;
        action = action_authorize_request;
        result = if decision.decision == decision_allow then result_allowed else result_denied;
        correlation_id = decision.request_correlation_id;
        payload = some (payload_of decision);
        created_at = decision.created_at;
      }
