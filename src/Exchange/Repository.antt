-- ===== src/Exchange/Repository.antt =====
-- internal/exchange/repository.go. `json.Marshal` cannot fail on a slice of texts.
pub mod Laws
use taifa_exchange.Database.Session.{◌>>◌, Db, Pool, call, in_tx, raise, wrapping}
use taifa_exchange.Audit.Outbox.{insert, Execer, in_transaction}
use taifa_exchange.Audit.Event.{Event}
use taifa_exchange.Base.{Option, none, some, String, if◌then◌else◌, ◌==◌}
use taifa_exchange.Database.Statements.{insert_decision_row}
use taifa_exchange.Database.Tables.{DecisionRow}
use taifa_exchange.Exchange.Model.{DecisionRecord}
use taifa_exchange.Ids.{Draw}
use taifa_exchange.Outcome.{plain}
use taifa_exchange.Text.{Unicode}

-- `exchange.NewRepository`
abbrev pub new_repository : Option Pool → Option (Option Pool)
new_repository pool = some pool

-- `nullIfEmpty`
abbrev pub null_if_empty : String → Option String
null_if_empty value = if value == "" then none else some value

-- The row of a decision.
unfoldable pub decision_row : DecisionRecord → DecisionRow
decision_row d = record {
  id = d.id;
  decision = d.decision;
  target_system = d.target_system;
  route = d.route;
  method = d.method;
  operation = d.operation;
  organization_id = d.organization_id;
  actor_context_id = null_if_empty d.actor_context_id;
  person_id = null_if_empty d.person_id;
  credential_id = null_if_empty d.credential_id;
  session_id = null_if_empty d.session_id;
  matched_policy_id = null_if_empty d.matched_policy_id;
  deny_reason = null_if_empty d.deny_reason;
  request_correlation_id = null_if_empty d.request_correlation_id;
  taifa_id_correlation_id = null_if_empty d.taifa_id_correlation_id;
  actor_roles_json = d.actor_roles;
  organization_capabilities_json = d.organization_capabilities;
  required_roles_json = d.required_roles;
  required_capabilities_json = d.required_capabilities;
  created_at = d.created_at;
}

-- `insertDecision`
unfoldable pub insert_decision : Option Execer → DecisionRecord → Db (Unit {0})
insert_decision none decision = raise (plain "exchange decision execer is nil")
insert_decision (some execer) decision =
    wrapping "insert exchange authorization decision"
      (call (insert_decision_row (decision_row decision)))

module _ ⦃u : Unicode⦄ where
  -- `Repository.CreateDecisionWithAudit`; a repository holds a pool, and either can be nil.
  unfoldable pub create_decision_with_audit :
      Draw → Option (Option Pool) → DecisionRecord → Event → Db (Unit {0})
  create_decision_with_audit d (some (some pool)) decision event =
      in_tx (some pool)
        (insert_decision (some in_transaction) decision >> insert d (some in_transaction) event)
  create_decision_with_audit d _ decision event =
      raise (plain "exchange repository is not configured")
