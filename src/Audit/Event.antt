-- ===== src/Audit/Event.antt =====
-- internal/audit/event.go. A payload that is nil is `none`.
pub mod Laws
use taifa_exchange.Base.{List, Option, String, [], eqb, if◌then◌else◌, none, some, ℕ, ◌==◌}
use taifa_exchange.Database.Tables.{Value}
use taifa_exchange.Ids.{Draw, new_audit_event_id}
use taifa_exchange.Text.{Unicode}

abbrev pub source_taifa_exchange : String
source_taifa_exchange = "taifa-exchange"

abbrev pub result_success : String
result_success = "SUCCESS"

abbrev pub result_allowed : String
result_allowed = "ALLOWED"

abbrev pub result_denied : String
result_denied = "DENIED"

abbrev pub resource_exchange_policy : String
resource_exchange_policy = "EXCHANGE_POLICY"

abbrev pub resource_authorization_decision : String
resource_authorization_decision = "AUTHORIZATION_DECISION"

abbrev pub action_create_policy : String
action_create_policy = "CREATE_POLICY"

abbrev pub action_authorize_request : String
action_authorize_request = "AUTHORIZE_REQUEST"

abbrev pub event_authorization_allowed : String
event_authorization_allowed = "exchange.authorization.allowed"

abbrev pub event_authorization_denied : String
event_authorization_denied = "exchange.authorization.denied"

abbrev pub event_actor_context_resolve_failed : String
event_actor_context_resolve_failed = "exchange.actor_context.resolve_failed"

abbrev pub event_policy_not_found : String
event_policy_not_found = "exchange.policy.not_found"

abbrev pub event_policy_seeded : String
event_policy_seeded = "exchange.policy.seeded"

-- `audit.Event`; `created_at` is 0 for Go's zero time.
pub record Event : Type 0 where
  pub id : String
  pub event_type : String
  pub source_system : String
  pub subject_id : String
  pub actor_id : String
  pub resource_type : String
  pub resource_id : String
  pub action : String
  pub result : String
  pub correlation_id : String
  pub payload : Option (List (String × Value))
  pub created_at : ℕ

module _ ⦃u : Unicode⦄ where
  -- `Event.WithDefaults`
  unfoldable pub with_defaults : Draw → Event → Event
  with_defaults d e = record e {
    id = if e.id == "" then new_audit_event_id d else e.id;
    source_system = if e.source_system == "" then source_taifa_exchange else e.source_system;
    created_at = if eqb e.created_at 0 then d.now else e.created_at;
    payload = elim e.payload [ none ↦ some [] | some p ↦ some p ];
  }
