-- ===== src/Policy/Evaluator/Verdict.antt =====
-- The specification of internal/policy/evaluator.go, Evaluate, in terms of the raw input: who is
-- permitted, and which reason a denial gives.
pub mod Proof
pub mod Allow
pub mod Graph
use taifa_exchange.Base.{
  Bool, Bool-cases, List, String, [], arith, false, inl, inr, is_nil, none, not, some, true, ◌&&◌,
  ◌≡◌, ◌≢◌, ◌⊎◌,
}
use taifa_exchange.Policy.Evaluator.{has_any_required_role, missing_required_capabilities}
use taifa_exchange.Policy.Evaluator.Requirements.{
  AllHeld, AllHeld-normalize, AnyHeld, AnyHeld-normalize, has_any_required_role_iff,
  no_requirement_iff, none_missing_iff,
}
use taifa_exchange.Policy.Model.{
  EvaluationInput, Policy, decision_allow, decision_deny, effect_allow, effect_deny,
  explicit_policy_deny, missing_method, missing_operation, missing_required_capability,
  missing_required_role, missing_route, missing_target_system, not_found, policy_disabled,
  status_active, unsupported_policy_effect,
}
use taifa_exchange.Policy.Normalize.{normalize_string_slice}
use taifa_exchange.Policy.Normalize.Laws.{IsListed}
use taifa_exchange.Text.{Unicode, normal, trim_space}

module _ ⦃u : Unicode⦄ where
  -- The four fields that name the operation are not blank.
  pub record IsComplete (i : EvaluationInput) : Type 0 where
    pub target_system : normal i.target_system ≢ ""
    pub method : normal i.method ≢ ""
    pub route : trim_space i.route ≢ ""
    pub operation : trim_space i.operation ≢ ""

  -- No role is required, or one of the required roles is held.
  abbrev pub RoleMet : EvaluationInput → Policy → Type 0
  RoleMet i p =
      ((x : String) → ¬ IsListed x p.required_roles) ⊎ AnyHeld i.actor_roles p.required_roles

  abbrev pub CapabilitiesMet : EvaluationInput → Policy → Type 0
  CapabilitiesMet i p = AllHeld i.organization_capabilities p.required_capabilities

  -- The policy lets the request through.
  pub record Permits (i : EvaluationInput) (p : Policy) : Type 0 where
    pub complete : IsComplete i
    pub found : i.policy ≡ some p
    pub active : normal p.status ≡ status_active
    pub allows : normal p.effect ≡ effect_allow
    pub role : RoleMet i p
    pub capabilities : CapabilitiesMet i p

  -- The decision and the reason of a denial, by the first condition that fails.
  pub data Verdict (i : EvaluationInput) (decision reason : String) : Type 0 where
    no_target_system :
        normal i.target_system ≡ ""
        → decision ≡ decision_deny
        → reason ≡ missing_target_system
        → Verdict i decision reason
    no_method :
        normal i.target_system ≢ ""
        → normal i.method ≡ ""
        → decision ≡ decision_deny
        → reason ≡ missing_method
        → Verdict i decision reason
    no_route :
        normal i.target_system ≢ ""
        → normal i.method ≢ ""
        → trim_space i.route ≡ ""
        → decision ≡ decision_deny
        → reason ≡ missing_route
        → Verdict i decision reason
    no_operation :
        normal i.target_system ≢ ""
        → normal i.method ≢ ""
        → trim_space i.route ≢ ""
        → trim_space i.operation ≡ ""
        → decision ≡ decision_deny
        → reason ≡ missing_operation
        → Verdict i decision reason
    no_policy :
        IsComplete i
        → i.policy ≡ none
        → decision ≡ decision_deny
        → reason ≡ not_found
        → Verdict i decision reason
    disabled :
        (p : Policy)
        → IsComplete i
        → i.policy ≡ some p
        → normal p.status ≢ status_active
        → decision ≡ decision_deny
        → reason ≡ policy_disabled
        → Verdict i decision reason
    denied :
        (p : Policy)
        → IsComplete i
        → i.policy ≡ some p
        → normal p.status ≡ status_active
        → normal p.effect ≡ effect_deny
        → decision ≡ decision_deny
        → reason ≡ explicit_policy_deny
        → Verdict i decision reason
    unsupported :
        (p : Policy)
        → IsComplete i
        → i.policy ≡ some p
        → normal p.status ≡ status_active
        → normal p.effect ≢ effect_deny
        → normal p.effect ≢ effect_allow
        → decision ≡ decision_deny
        → reason ≡ unsupported_policy_effect
        → Verdict i decision reason
    no_role :
        (p : Policy)
        → IsComplete i
        → i.policy ≡ some p
        → normal p.status ≡ status_active
        → normal p.effect ≡ effect_allow
        → ¬ RoleMet i p
        → decision ≡ decision_deny
        → reason ≡ missing_required_role
        → Verdict i decision reason
    no_capability :
        (p : Policy)
        → IsComplete i
        → i.policy ≡ some p
        → normal p.status ≡ status_active
        → normal p.effect ≡ effect_allow
        → RoleMet i p
        → ¬ CapabilitiesMet i p
        → decision ≡ decision_deny
        → reason ≡ missing_required_capability
        → Verdict i decision reason
    permitted :
        (p : Policy)
        → Permits i p
        → decision ≡ decision_allow
        → reason ≡ ""
        → Verdict i decision reason
