-- ===== src/Tests/Policies.antt =====
-- Runs of internal/policy: evaluation, lookup and seeding.
use taifa_exchange.Tests.Fixtures.{ascii_only, pool, session, draw}
use taifa_exchange.Policy.Model.{
  EvaluationInput, Policy, AuthorizationInput, lookup_input, decision_allow,
}
use taifa_exchange.Audit.Event.{with_defaults}
use taifa_exchange.Audit.Outbox.{insert, null_if_empty, outbox_row}
use taifa_exchange.Base.{List, [], contains, refl, some, ◌↔◌, ◌∷◌, ◌≡◌, arith}
use taifa_exchange.Database.Reads.{Reads}
use taifa_exchange.Database.Session.{Session, call, in_tx}
use taifa_exchange.Database.Statements.{
  capability_conflict, insert_capability, insert_outbox_row, insert_policy, insert_role,
  outbox_exists, policy_conflict, policy_exists, role_conflict,
}
use taifa_exchange.Database.Tables.{empty_tables, not_blank, policy_row_ok}
use taifa_exchange.Ids.{Draw, hex, new_audit_event_id, new_id}
use taifa_exchange.Outcome.{ok}
use taifa_exchange.Policy.Evaluator.{
  any_role_loop, apply_policy, check_requirements, evaluate, has_any_required_role, missing_loop,
  missing_required_capabilities,
}
use taifa_exchange.Policy.Evaluator.Verdict.{Permits, Verdict}
use taifa_exchange.Policy.Evaluator.Verdict.Allow.{evaluate-allow_iff}
use taifa_exchange.Policy.Normalize.{normalize_string_set, normalize_string_slice, slice_loop}
use taifa_exchange.Policy.Repository.{find_by_route}
use taifa_exchange.Policy.Repository.Laws.{find_by_route-Reads, found_or_missing, stored_policy}
use taifa_exchange.Policy.Seed.{
  SeedPolicy, SeedSummary, insert_seed_policy, insert_seed_policy_capability,
  insert_seed_policy_role, policy_seeded_audit_event, record_seeded, seed_all, seed_capabilities,
  seed_policy, seed_roles, seed_with,
}
use taifa_exchange.Policy.Seed.Canonical.{care_claim_create}
use taifa_exchange.Text.{
  ascii_upper, is_space, normal, nth, to_upper, trim_left, trim_right, trim_space, upper_by,
}
use taifa_exchange.Policy.Evaluator.Alike.{Alike, evaluate_alike}
use taifa_exchange.Policy.Evaluator.Verdict.Graph.{answer_of, evaluate-Verdict_iff}

abbrev policy : Policy
policy = record {
  id = "POL-1";
  target_system = "TAIFA_CARE";
  route_pattern = "/claims";
  method = "POST";
  operation = "claim";
  effect = " allow";
  status = "active ";
  description = "";
  required_roles = "provider_clinician" ∷ "" ∷ [];
  required_capabilities = "CAN_PROVIDE_HEALTH_SERVICES" ∷ [];
}

abbrev question : EvaluationInput
question = record {
  target_system = "taifa_care";
  method = "post";
  route = "/claims";
  operation = "claim";
  policy = some policy;
  actor_roles = "citizen" ∷ "PROVIDER_CLINICIAN" ∷ [];
  organization_capabilities = "can_provide_health_services" ∷ [];
}

abbrev asked : AuthorizationInput
asked = record {
  target_system = "taifa_care";
  method = "post";
  route = "/claims";
  operation = "claim";
  actor_roles = "PROVIDER_CLINICIAN" ∷ [];
  organization_capabilities = "CAN_PROVIDE_HEALTH_SERVICES" ∷ [];
}

-- The question is answered with ALLOW.
allowed : (evaluate question).decision ≡ "ALLOW"
unfolding any_role_loop missing_loop evaluate trim_space is_space trim_left trim_right normal
    to_upper upper_by ascii_upper nth contains apply_policy check_requirements has_any_required_role
    missing_required_capabilities normalize_string_set normalize_string_slice slice_loop
allowed = refl

evaluate-allow_iff_example :
    ((evaluate question).decision ≡ decision_allow) ↔ ((p : Policy) × Permits question p)
evaluate-allow_iff_example = evaluate-allow_iff question

evaluate-Verdict_iff_example :
    Verdict question decision_allow ""
    ↔ ((decision_allow ≡ (evaluate question).decision) × ("" ≡ (evaluate question).deny_reason))
evaluate-Verdict_iff_example = evaluate-Verdict_iff question decision_allow ""

-- The question in another spelling: the lists are in another order and repeat a text.
abbrev respelled : EvaluationInput
respelled = record question {
  target_system = " TAIFA_care ";
  actor_roles = "provider_clinician" ∷ " Citizen" ∷ "CITIZEN" ∷ [];
  organization_capabilities = "CAN_PROVIDE_HEALTH_SERVICES" ∷ "" ∷ [];
}

alike : Alike question respelled
unfolding normal to_upper upper_by ascii_upper trim_space trim_left trim_right is_space nth
alike = record {
  target_system = refl;
  method = refl;
  route = refl;
  operation = refl;
  policies = record {
    status = refl;
    effect = refl;
    roles = λ x. (λ h. h, λ h. h);
    capabilities = λ x. (λ h. h, λ h. h);
  };
  held_roles = λ x. ground arith;
  held_capabilities = λ x. ground arith;
}

evaluate_alike_example : answer_of (evaluate question) ≡ answer_of (evaluate respelled)
evaluate_alike_example = evaluate_alike question respelled alike

find_by_route-Reads_example :
    Reads
      (find_by_route (some (some pool)) (lookup_input asked))
      (λ t. found_or_missing (stored_policy pool (lookup_input asked) t))
      session
find_by_route-Reads_example = find_by_route-Reads pool (lookup_input asked) session

abbrev empty_session : Session
empty_session = record { tables = empty_tables; faults = [] }

abbrev draws : SeedPolicy → Draw
draws p = draw

abbrev seeds : List SeedPolicy
seeds = care_claim_create ∷ []

-- One policy with its role, its capability and its event.
abbrev one_of_each : SeedSummary
one_of_each = record { policies = 1; roles = 1; capabilities = 1; audit_events = 1 }

seeded : (seed_with draws seeds (some (some pool)) empty_session).0 ≡ ok one_of_each
unfolding seed_with in_tx call seed_all seed_policy insert_seed_policy insert_policy record_seeded
    seed_roles seed_capabilities insert_seed_policy_role insert_seed_policy_capability insert_role
    insert_capability policy_row_ok contains not_blank policy_conflict role_conflict
    capability_conflict policy_exists insert insert_outbox_row outbox_row with_defaults
    outbox_exists policy_seeded_audit_event null_if_empty new_audit_event_id new_id hex trim_space
    is_space trim_left trim_right to_upper upper_by ascii_upper nth
seeded = refl
