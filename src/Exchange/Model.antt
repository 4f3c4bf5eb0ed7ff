-- ===== src/Exchange/Model.antt =====
-- internal/exchange/model.go and dto.go: constants and records. A Go slice that can be nil is an
-- `Option`.
use taifa_exchange.Base.{Bool, List, Option, String, [], contains, if◌then◌else◌, not, ℕ, ◌==◌, ◌∷◌}
use taifa_exchange.Text.{Unicode, normal, trim_space}

abbrev pub decision_allow : String
decision_allow = "ALLOW"

abbrev pub decision_deny : String
decision_deny = "DENY"

abbrev pub target_system_unknown : String
target_system_unknown = "UNKNOWN"

abbrev pub method_unknown : String
method_unknown = "UNKNOWN"

abbrev pub known_target_systems : List String
known_target_systems =
    "TAIFA_ID" ∷ "TAIFA_CARE" ∷ "TAIFA_TAX" ∷ "TAIFA_PAY" ∷ "TAIFA_OBSERVE" ∷ "TAIFA_CITIZEN" ∷ []

abbrev pub known_methods : List String
known_methods = "GET" ∷ "POST" ∷ "PUT" ∷ "PATCH" ∷ "DELETE" ∷ []

abbrev pub error_code_validation : String
error_code_validation = "VALIDATION_ERROR"

abbrev pub error_code_unauthorized : String
error_code_unauthorized = "UNAUTHORIZED"

abbrev pub error_code_forbidden : String
error_code_forbidden = "FORBIDDEN"

abbrev pub error_code_unavailable : String
error_code_unavailable = "UPSTREAM_UNAVAILABLE"

abbrev pub missing_token : String
missing_token = "missing_token"

abbrev pub missing_organization_id : String
missing_organization_id = "missing_organization_id"

abbrev pub missing_target_system : String
missing_target_system = "missing_target_system"

abbrev pub unsupported_target_system : String
unsupported_target_system = "unsupported_target_system"

abbrev pub missing_method : String
missing_method = "missing_method"

abbrev pub unsupported_method : String
unsupported_method = "unsupported_method"

abbrev pub missing_route : String
missing_route = "missing_route"

abbrev pub missing_operation : String
missing_operation = "missing_operation"

abbrev pub taifa_id_client_not_configured : String
taifa_id_client_not_configured = "taifa_id_client_not_configured"

abbrev pub actor_context_resolve_failed : String
actor_context_resolve_failed = "actor_context_resolve_failed"

abbrev pub organization_capabilities_lookup_failed : String
organization_capabilities_lookup_failed = "organization_capabilities_lookup_failed"

abbrev pub policy_evaluation_failed : String
policy_evaluation_failed = "policy_evaluation_failed"

pub record AuthorizeRequest : Type 0 where
  pub organization_id : String
  pub target_system : String
  pub route : String
  pub method : String
  pub operation : String

pub record AuthorizeInput : Type 0 where
  pub token : String
  pub correlation_id : String
  pub request : AuthorizeRequest

pub record DecisionRecord : Type 0 where
  pub id : String
  pub decision : String
  pub target_system : String
  pub route : String
  pub method : String
  pub operation : String
  pub organization_id : String
  pub actor_context_id : String
  pub person_id : String
  pub credential_id : String
  pub session_id : String
  pub matched_policy_id : String
  pub deny_reason : String
  pub request_correlation_id : String
  pub taifa_id_correlation_id : String
  pub actor_roles : Option (List String)
  pub organization_capabilities : Option (List String)
  pub required_roles : Option (List String)
  pub required_capabilities : Option (List String)
  pub created_at : ℕ

pub record MembershipSummary : Type 0 where
  pub id : String
  pub membership_type : String
  pub roles : List String

pub record ActorContextSummary : Type 0 where
  pub actor_context_id : String
  pub person_id : String
  pub credential_id : String
  pub organization_id : String
  pub session_id : String
  pub roles : Option (List String)
  pub memberships : List MembershipSummary

pub record Obligations : Type 0 where
  pub propagate_correlation_id : Bool
  pub require_audit : Bool

pub record AuthorizeResponse : Type 0 where
  pub decision_id : String
  pub decision : String
  pub target_system : String
  pub route : String
  pub method : String
  pub operation : String
  pub actor_context : ActorContextSummary
  pub matched_policy_id : String
  pub obligations : Obligations

pub record AuthorizeResult : Type 0 where
  pub decision_record : DecisionRecord
  pub response : Option AuthorizeResponse
  pub http_status_code : ℕ
  pub error_code : String
  pub error_message : String

module _ ⦃u : Unicode⦄ where
  -- `NormalizeTargetSystemForDecision`
  unfoldable pub normalize_target_system_for_decision : String → String
  normalize_target_system_for_decision value =
      if contains known_target_systems (normal value) then normal value else target_system_unknown

  -- `IsKnownTargetSystem`
  unfoldable pub is_known_target_system : String → Bool
  is_known_target_system value =
      not (normalize_target_system_for_decision value == target_system_unknown)

  -- `NormalizeMethodForDecision`
  unfoldable pub normalize_method_for_decision : String → String
  normalize_method_for_decision value =
      if contains known_methods (normal value) then normal value else method_unknown

  -- `IsKnownMethod`
  unfoldable pub is_known_method : String → Bool
  is_known_method value = not (normalize_method_for_decision value == method_unknown)

-- `NormalizeRoute`
unfoldable pub normalize_route : String → String
normalize_route value = if trim_space value == "" then "UNKNOWN" else trim_space value

-- `NormalizeOperation`
unfoldable pub normalize_operation : String → String
normalize_operation value = if trim_space value == "" then "UNKNOWN" else trim_space value

-- `NormalizeOrganizationID`
unfoldable pub normalize_organization_id : String → String
normalize_organization_id value = if trim_space value == "" then "UNKNOWN" else trim_space value
