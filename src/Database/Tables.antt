-- ===== src/Database/Tables.antt =====
-- migrations/000001_init.up.sql and 000002: the rows of the five tables and their constraints.
-- A nullable column is an `Option`; a JSONB column is the value that it holds.
use taifa_exchange.Base.{
  Bool, List, Option, String, [], code, contains, eqb, false, not, ℕ, ◌&&◌, ◌∷◌, ◌||◌,
}

-- The values of a JSON payload: a text, or a Go slice of texts (`null` if nil, else an array).
pub data Value : Type 0 where
  text : String → Value
  texts : Option (List String) → Value

pub record PolicyRow : Type 0 where
  pub id : String
  pub target_system : String
  pub route_pattern : String
  pub method : String
  pub operation : String
  pub effect : String
  pub status : String
  pub description : String

pub record RoleRow : Type 0 where
  pub id : String
  pub policy_id : String
  pub role : String

pub record CapabilityRow : Type 0 where
  pub id : String
  pub policy_id : String
  pub capability : String

pub record DecisionRow : Type 0 where
  pub id : String
  pub decision : String
  pub target_system : String
  pub route : String
  pub method : String
  pub operation : String
  pub organization_id : String
  pub actor_context_id : Option String
  pub person_id : Option String
  pub credential_id : Option String
  pub session_id : Option String
  pub matched_policy_id : Option String
  pub deny_reason : Option String
  pub request_correlation_id : Option String
  pub taifa_id_correlation_id : Option String
  pub actor_roles_json : Option (List String)
  pub organization_capabilities_json : Option (List String)
  pub required_roles_json : Option (List String)
  pub required_capabilities_json : Option (List String)
  pub created_at : ℕ

pub record OutboxRow : Type 0 where
  pub id : String
  pub event_type : String
  pub source_system : String
  pub actor_id : Option String
  pub subject_id : Option String
  pub resource_type : String
  pub resource_id : String
  pub action : String
  pub result : String
  pub correlation_id : Option String
  pub payload_json : List (String × Value)
  pub created_at : ℕ

-- The newest row stands first.
pub record Tables : Type 0 where
  pub policies : List PolicyRow
  pub roles : List RoleRow
  pub capabilities : List CapabilityRow
  pub decisions : List DecisionRow
  pub outbox : List OutboxRow

abbrev pub empty_tables : Tables
empty_tables = record { policies = []; roles = []; capabilities = []; decisions = []; outbox = [] }

abbrev pub target_systems : List String
target_systems =
    "TAIFA_ID" ∷ "TAIFA_CARE" ∷ "TAIFA_TAX" ∷ "TAIFA_PAY" ∷ "TAIFA_OBSERVE" ∷ "TAIFA_CITIZEN" ∷ []

abbrev pub methods : List String
methods = "GET" ∷ "POST" ∷ "PUT" ∷ "PATCH" ∷ "DELETE" ∷ []

abbrev pub role_names : List String
role_names =
    "CITIZEN" ∷ "PROVIDER_CLINICIAN" ∷ "PROVIDER_CLAIMS_OFFICER" ∷ "CARE_ADJUDICATOR"
    ∷ "TAX_OFFICER" ∷ "EMPLOYER_SUBMITTER" ∷ "PAY_OPERATOR" ∷ "OBSERVE_ANALYST" ∷ "OBSERVE_AUDITOR"
    ∷ "SYSTEM_ADMIN" ∷ []

abbrev pub capability_names : List String
capability_names =
    "CAN_EMPLOY_PERSONS" ∷ "CAN_SUBMIT_TAX_CONTRIBUTIONS" ∷ "CAN_PROVIDE_HEALTH_SERVICES"
    ∷ "CAN_RECEIVE_HEALTH_PAYOUTS" ∷ "CAN_ROUTE_PAYMENTS" ∷ "CAN_HOLD_RESERVE_ACCOUNT"
    ∷ "CAN_OPERATE_GOVERNMENT_SERVICE" ∷ "CAN_OBSERVE_SECURITY_EVENTS" ∷ []

-- SQL's `length(trim(s)) > 0`: some character is not a space.
unfoldable pub not_blank : String → Bool
not_blank String.[] = false
not_blank (String.◌∷◌ c s) = not (eqb (code c) 32) || not_blank s

-- The CHECK constraints of each table.
unfoldable pub policy_row_ok : PolicyRow → Bool
policy_row_ok r =
    contains target_systems r.target_system
    && contains methods r.method
    && contains ("ALLOW" ∷ "DENY" ∷ []) r.effect
    && contains ("ACTIVE" ∷ "DISABLED" ∷ []) r.status
    && not_blank r.route_pattern
    && not_blank r.operation

unfoldable pub decision_row_ok : DecisionRow → Bool
decision_row_ok r =
    contains ("ALLOW" ∷ "DENY" ∷ []) r.decision
    && contains ("UNKNOWN" ∷ target_systems) r.target_system
    && contains ("UNKNOWN" ∷ methods) r.method
