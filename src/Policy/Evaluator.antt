-- ===== src/Policy/Evaluator.antt =====
-- internal/policy/evaluator.go
pub mod Requirements
pub mod Verdict
pub mod Alike
use taifa_exchange.Base.{
  String, Bool, true, false, not, ◌&&◌, ◌==◌, List, [], ◌∷◌, ◌++◌, Option, none, some, contains,
  is_nil, if◌then◌else◌,
}
use taifa_exchange.Text.{Unicode, trim_space, normal}
use taifa_exchange.Policy.Model.{
  Policy, EvaluationInput, EvaluationResult, effect_allow, effect_deny, status_active,
  decision_allow, decision_deny, missing_target_system, missing_method, missing_route,
  missing_operation, not_found, policy_disabled, explicit_policy_deny, missing_required_role,
  missing_required_capability, unsupported_policy_effect,
}
use taifa_exchange.Policy.Normalize.{normalize_string_set, normalize_string_slice}

-- `result.DenyReason = reason; return result`
abbrev pub deny : String → EvaluationResult → EvaluationResult
deny reason result = record result { deny_reason = reason }

module _ ⦃u : Unicode⦄ where
  -- The loop of hasAnyRequiredRole.
  unfoldable pub any_role_loop : List String → List String → Bool
  any_role_loop set [] = false
  any_role_loop set (role ∷ roles) =
      let required_role = normal role in
      let rest = any_role_loop set roles in
      if required_role == "" then rest else if contains set required_role then true else rest

  unfoldable pub has_any_required_role : List String → List String → Bool
  has_any_required_role actor_roles required_roles =
      if is_nil required_roles
      then true
      else any_role_loop (normalize_string_set actor_roles) required_roles

  -- The loop of missingRequiredCapabilities, over what it has found missing.
  unfoldable pub missing_loop : List String → List String → List String → List String
  missing_loop set missing [] = missing
  missing_loop set missing (capability ∷ capabilities) =
      let required_capability = normal capability in
      missing_loop set
        (if required_capability == ""
          then missing
          else if contains set required_capability
          then missing
          else missing ++ required_capability ∷ [])
        capabilities

  unfoldable pub missing_required_capabilities : List String → List String → List String
  missing_required_capabilities organization_capabilities required_capabilities =
      if is_nil required_capabilities
      then []
      else missing_loop (normalize_string_set organization_capabilities) [] required_capabilities

  -- The case EffectAllow of the switch in Evaluate.
  unfoldable pub check_requirements :
      List String → List String → EvaluationResult → EvaluationResult
  check_requirements roles capabilities result =
      if not (is_nil roles) && not (has_any_required_role result.actor_roles roles)
      then deny missing_required_role result
      else if not
          (is_nil (missing_required_capabilities result.organization_capabilities capabilities))
      then deny missing_required_capability result
      else record result { decision = decision_allow; deny_reason = "" }

  -- Evaluate from `policy := *input.Policy` on.
  unfoldable pub apply_policy : Policy → EvaluationResult → EvaluationResult
  apply_policy policy initial =
      let roles = normalize_string_slice policy.required_roles in
      let capabilities = normalize_string_slice policy.required_capabilities in
      let result : EvaluationResult = record initial {
        matched_policy_id = policy.id;
        required_roles = some roles;
        required_capabilities = some capabilities;
      } in
      let effect = normal policy.effect in
      if not (normal policy.status == status_active)
      then deny policy_disabled result
      else if effect == effect_deny
      then deny explicit_policy_deny result
      else if effect == effect_allow
      then check_requirements roles capabilities result
      else deny unsupported_policy_effect result

  -- The result that Evaluate starts from.
  abbrev pub initial_result : EvaluationInput → EvaluationResult
  initial_result input = record {
    decision = decision_deny;
    matched_policy_id = "";
    deny_reason = "";
    target_system = normal input.target_system;
    method = normal input.method;
    route = trim_space input.route;
    operation = trim_space input.operation;
    required_roles = none;
    required_capabilities = none;
    actor_roles = normalize_string_slice input.actor_roles;
    organization_capabilities = normalize_string_slice input.organization_capabilities;
  }

  -- `Evaluator.Evaluate`
  unfoldable pub evaluate : EvaluationInput → EvaluationResult
  evaluate input =
      let result = initial_result input in
      if result.target_system == ""
      then deny missing_target_system result
      else if result.method == ""
      then deny missing_method result
      else if result.route == ""
      then deny missing_route result
      else if result.operation == ""
      then deny missing_operation result
      else elim input.policy [
        | none ↦ deny not_found result
        | some policy ↦ apply_policy policy result
      ]
