-- ===== src/Policy/Seed/Canonical.antt =====
-- internal/policy/seed.go, CanonicalPolicies
use taifa_exchange.Base.{List, Option, [], ◌∷◌}
use taifa_exchange.Database.Session.{Db, Pool}
use taifa_exchange.Ids.{Draw}
use taifa_exchange.Policy.Model.{
  effect_allow, status_active, target_system_taifa_care, target_system_taifa_observe,
  target_system_taifa_pay, target_system_taifa_tax,
}
use taifa_exchange.Policy.Seed.{SeedPolicy, SeedSummary, seed_with}
use taifa_exchange.Text.{Unicode}

abbrev pub care_claim_create : SeedPolicy
care_claim_create = record {
  id = "POL-CARE-CLAIM-CREATE-CLINICIAN";
  target_system = target_system_taifa_care;
  route_pattern = "/api/v1/claims";
  method = "POST";
  operation = "care.claim.create";
  effect = effect_allow;
  status = status_active;
  description = "Allow clinicians at health-service organizations to create care claims.";
  required_roles =
      record { id = "PR-CARE-CLAIM-CREATE-CLINICIAN"; role = "PROVIDER_CLINICIAN" } ∷ [];
  required_capabilities =
      record {
        id = "PC-CARE-CLAIM-CREATE-HEALTH-SERVICES";
        capability = "CAN_PROVIDE_HEALTH_SERVICES";
      }
      ∷ [];
}

abbrev care_claim_submit : SeedPolicy
care_claim_submit = record {
  id = "POL-CARE-CLAIM-SUBMIT-CLAIMS-OFFICER";
  target_system = target_system_taifa_care;
  route_pattern = "/api/v1/claims/submit";
  method = "POST";
  operation = "care.claim.submit";
  effect = effect_allow;
  status = status_active;
  description =
      "Allow provider claims officers at health-service organizations to submit care claims.";
  required_roles =
      record { id = "PR-CARE-CLAIM-SUBMIT-CLAIMS-OFFICER"; role = "PROVIDER_CLAIMS_OFFICER" } ∷ [];
  required_capabilities =
      record {
        id = "PC-CARE-CLAIM-SUBMIT-HEALTH-SERVICES";
        capability = "CAN_PROVIDE_HEALTH_SERVICES";
      }
      ∷ [];
}

abbrev tax_contribution_submit : SeedPolicy
tax_contribution_submit = record {
  id = "POL-TAX-CONTRIBUTION-SUBMIT-EMPLOYER";
  target_system = target_system_taifa_tax;
  route_pattern = "/api/v1/contributions";
  method = "POST";
  operation = "tax.contribution.submit";
  effect = effect_allow;
  status = status_active;
  description =
      "Allow employer submitters at contribution-enabled organizations to submit tax contributions.";
  required_roles =
      record { id = "PR-TAX-CONTRIBUTION-SUBMIT-EMPLOYER"; role = "EMPLOYER_SUBMITTER" } ∷ [];
  required_capabilities =
      record {
        id = "PC-TAX-CONTRIBUTION-SUBMIT-CONTRIBUTIONS";
        capability = "CAN_SUBMIT_TAX_CONTRIBUTIONS";
      }
      ∷ [];
}

abbrev tax_contribution_read : SeedPolicy
tax_contribution_read = record {
  id = "POL-TAX-CONTRIBUTION-READ-TAX-OFFICER";
  target_system = target_system_taifa_tax;
  route_pattern = "/api/v1/contributions";
  method = "GET";
  operation = "tax.contribution.read";
  effect = effect_allow;
  status = status_active;
  description =
      "Allow tax officers at government-service organizations to read contribution records.";
  required_roles =
      record { id = "PR-TAX-CONTRIBUTION-READ-TAX-OFFICER"; role = "TAX_OFFICER" } ∷ [];
  required_capabilities =
      record {
        id = "PC-TAX-CONTRIBUTION-READ-GOVERNMENT-SERVICE";
        capability = "CAN_OPERATE_GOVERNMENT_SERVICE";
      }
      ∷ [];
}

abbrev pay_instruction_create : SeedPolicy
pay_instruction_create = record {
  id = "POL-PAY-INSTRUCTION-CREATE-PAY-OPERATOR";
  target_system = target_system_taifa_pay;
  route_pattern = "/api/v1/payment-instructions";
  method = "POST";
  operation = "pay.instruction.create";
  effect = effect_allow;
  status = status_active;
  description =
      "Allow payment operators at payment-routing organizations to create payment instructions.";
  required_roles =
      record { id = "PR-PAY-INSTRUCTION-CREATE-PAY-OPERATOR"; role = "PAY_OPERATOR" } ∷ [];
  required_capabilities =
      record { id = "PC-PAY-INSTRUCTION-CREATE-ROUTE-PAYMENTS"; capability = "CAN_ROUTE_PAYMENTS" }
      ∷ [];
}

abbrev observe_security_event_read : SeedPolicy
observe_security_event_read = record {
  id = "POL-OBSERVE-SECURITY-EVENT-READ-ANALYST";
  target_system = target_system_taifa_observe;
  route_pattern = "/api/v1/security-events";
  method = "GET";
  operation = "observe.security_event.read";
  effect = effect_allow;
  status = status_active;
  description = "Allow observe analysts at observe-enabled organizations to read security events.";
  required_roles =
      record { id = "PR-OBSERVE-SECURITY-EVENT-READ-ANALYST"; role = "OBSERVE_ANALYST" } ∷ [];
  required_capabilities =
      record {
        id = "PC-OBSERVE-SECURITY-EVENT-READ-OBSERVE-EVENTS";
        capability = "CAN_OBSERVE_SECURITY_EVENTS";
      }
      ∷ [];
}

abbrev pub canonical_policies : List SeedPolicy
canonical_policies =
    care_claim_create ∷ care_claim_submit ∷ tax_contribution_submit ∷ tax_contribution_read
    ∷ pay_instruction_create ∷ observe_security_event_read ∷ []

module _ ⦃u : Unicode⦄ where
  -- `Seeder.SeedCanonical`
  unfoldable pub seed_canonical : (SeedPolicy → Draw) → Option (Option Pool) → Db SeedSummary
  seed_canonical draws = seed_with draws canonical_policies
