-- ===== src/Policy/Service.antt =====
-- internal/policy/service.go
pub mod Laws
pub mod Reference
use taifa_exchange.Database.Session.{◌>>=◌, Db, Pool, raise}
use taifa_exchange.Base.{Option, if◌then◌else◌, none, some}
use taifa_exchange.Outcome.{Result, err, is_policy_not_found, ok, plain}
use taifa_exchange.Policy.Evaluator.{evaluate}
use taifa_exchange.Policy.Model.{
  AuthorizationInput, EvaluationInput, EvaluationResult, LookupInput, Policy, lookup_input,
}
use taifa_exchange.Policy.Repository.{find_by_route}
use taifa_exchange.Text.{Unicode}

-- `policy.Service`: its repository, which can be nil, and the pool of that.
pub record Service : Type 0 where
  pub repository : Option (Option Pool)

-- `policy.NewService`
abbrev pub new_service : Option (Option Pool) → Service
new_service repository = record { repository = repository }

abbrev pub evaluation_input : LookupInput → Option Policy → AuthorizationInput → EvaluationInput
evaluation_input lookup policy input = record {
  target_system = lookup.target_system;
  method = lookup.method;
  route = lookup.route;
  operation = lookup.operation;
  policy = policy;
  actor_roles = input.actor_roles;
  organization_capabilities = input.organization_capabilities;
}

module _ ⦃u : Unicode⦄ where
  -- What Evaluate does with the answer of FindByRoute.
  unfoldable pub answer : AuthorizationInput → Result Policy → Result EvaluationResult
  answer input (ok found) = ok (evaluate (evaluation_input (lookup_input input) (some found) input))
  answer input (err e) =
      if is_policy_not_found e
      then ok (evaluate (evaluation_input (lookup_input input) none input))
      else err e

  -- Evaluate with the repository of the service.
  unfoldable pub evaluate_with : Option (Option Pool) → AuthorizationInput → Db EvaluationResult
  evaluate_with none input s = (err (plain "policy service is not configured"), s)
  evaluate_with (some pool) input s =
      let (r, s') = find_by_route (some pool) (lookup_input input) s in (answer input r, s')

  -- `Service.Evaluate`; a nil service is `none`.
  unfoldable pub service_evaluate : Option Service → AuthorizationInput → Db EvaluationResult
  unfolding evaluate_with
  service_evaluate none input = raise (plain "policy service is not configured")
  service_evaluate (some service) input = evaluate_with service.repository input
