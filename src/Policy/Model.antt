-- ===== src/Policy/Model.antt =====
-- internal/policy/model.go: constants and records. A Go slice that can be nil is an `Option`.
use taifa_exchange.Base.{String, List, Option}
use taifa_exchange.Text.{Unicode, trim_space, normal}

abbrev pub target_system_taifa_id : String
target_system_taifa_id = "TAIFA_ID"

abbrev pub target_system_taifa_care : String
target_system_taifa_care = "TAIFA_CARE"

abbrev pub target_system_taifa_tax : String
target_system_taifa_tax = "TAIFA_TAX"

abbrev pub target_system_taifa_pay : String
target_system_taifa_pay = "TAIFA_PAY"

abbrev pub target_system_taifa_observe : String
target_system_taifa_observe = "TAIFA_OBSERVE"

abbrev pub target_system_taifa_citizen : String
target_system_taifa_citizen = "TAIFA_CITIZEN"

abbrev pub effect_allow : String
effect_allow = "ALLOW"

abbrev pub effect_deny : String
effect_deny = "DENY"

abbrev pub status_active : String
status_active = "ACTIVE"

abbrev pub status_disabled : String
status_disabled = "DISABLED"

abbrev pub decision_allow : String
decision_allow = "ALLOW"

abbrev pub decision_deny : String
decision_deny = "DENY"

abbrev pub missing_target_system : String
missing_target_system = "missing_target_system"

abbrev pub missing_method : String
missing_method = "missing_method"

abbrev pub missing_route : String
missing_route = "missing_route"

abbrev pub missing_operation : String
missing_operation = "missing_operation"

abbrev pub not_found : String
not_found = "policy_not_found"

abbrev pub policy_disabled : String
policy_disabled = "policy_disabled"

abbrev pub explicit_policy_deny : String
explicit_policy_deny = "explicit_policy_deny"

abbrev pub missing_required_role : String
missing_required_role = "missing_required_role"

abbrev pub missing_required_capability : String
missing_required_capability = "missing_required_capability"

abbrev pub unsupported_policy_effect : String
unsupported_policy_effect = "unsupported_policy_effect"

-- `Policy`. The columns `created_at` and `updated_at`, which no code reads, are left out.
pub record Policy : Type 0 where
  pub id : String
  pub target_system : String
  pub route_pattern : String
  pub method : String
  pub operation : String
  pub effect : String
  pub status : String
  pub description : String
  pub required_roles : List String
  pub required_capabilities : List String

pub record LookupInput : Type 0 where
  pub target_system : String
  pub method : String
  pub route : String
  pub operation : String

pub record AuthorizationInput : Type 0 where
  pub target_system : String
  pub method : String
  pub route : String
  pub operation : String
  pub actor_roles : List String
  pub organization_capabilities : List String

pub record EvaluationInput : Type 0 where
  pub target_system : String
  pub method : String
  pub route : String
  pub operation : String
  pub policy : Option Policy
  pub actor_roles : List String
  pub organization_capabilities : List String

-- `EvaluationResult`. The required roles and capabilities stay nil until a policy is read.
pub record EvaluationResult : Type 0 where
  pub decision : String
  pub matched_policy_id : String
  pub deny_reason : String
  pub target_system : String
  pub method : String
  pub route : String
  pub operation : String
  pub required_roles : Option (List String)
  pub required_capabilities : Option (List String)
  pub actor_roles : List String
  pub organization_capabilities : List String

module _ ⦃u : Unicode⦄ where
  -- `LookupInput.Normalized`
  unfoldable pub normalized : LookupInput → LookupInput
  normalized i = record {
    target_system = normal i.target_system;
    method = normal i.method;
    route = trim_space i.route;
    operation = trim_space i.operation;
  }

  -- `AuthorizationInput.LookupInput`
  unfoldable pub lookup_input : AuthorizationInput → LookupInput
  unfolding normalized
  lookup_input i = normalized (record {
    target_system = i.target_system;
    method = i.method;
    route = i.route;
    operation = i.operation;
  })
