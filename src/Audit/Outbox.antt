-- ===== src/Audit/Outbox.antt =====
-- internal/audit/outbox.go. `json.Marshal` cannot fail on a payload of texts and slices of texts.
use taifa_exchange.Database.Session.{Db, Pool, call, raise, wrapping}
use taifa_exchange.Audit.Event.{Event, with_defaults}
use taifa_exchange.Base.{List, Option, String, [], if◌then◌else◌, none, some, ◌==◌}
use taifa_exchange.Database.Statements.{insert_outbox_row}
use taifa_exchange.Database.Tables.{OutboxRow, Value}
use taifa_exchange.Ids.{Draw}
use taifa_exchange.Outcome.{plain}
use taifa_exchange.Text.{Unicode}
use taifa_exchange.Parsing.Integer.Laws.{value}

-- Where an INSERT is executed: on the pool, or in a transaction. A nil execer is `none`.
pub data Execer : Type 0 where
  on_pool in_transaction : Execer

unfoldable pub null_if_empty : String → Option String
null_if_empty value = if value == "" then none else some value

-- The payload of an event with its defaults, which is never nil.
abbrev members : Option (List (String × Value)) → List (String × Value)
members none = []
members (some p) = p

-- The row that Insert writes for an event.
unfoldable pub outbox_row : Event → OutboxRow
unfolding null_if_empty
outbox_row e = record {
  id = e.id;
  event_type = e.event_type;
  source_system = e.source_system;
  actor_id = null_if_empty e.actor_id;
  subject_id = null_if_empty e.subject_id;
  resource_type = e.resource_type;
  resource_id = e.resource_id;
  action = e.action;
  result = e.result;
  correlation_id = null_if_empty e.correlation_id;
  payload_json = members e.payload;
  created_at = e.created_at;
}

-- `audit.NewOutboxRepository`
abbrev pub new_outbox_repository : Option Pool → Option (Option Pool)
new_outbox_repository pool = some pool

module _ ⦃u : Unicode⦄ where
  -- `audit.Insert`
  unfoldable pub insert : Draw → Option Execer → Event → Db (Unit {0})
  insert d none event = raise (plain "audit outbox execer is nil")
  insert d (some execer) event =
      wrapping "insert audit outbox event"
        (call (insert_outbox_row (outbox_row (with_defaults d event))))

  -- `OutboxRepository.Create`
  unfoldable pub create : Draw → Option (Option Pool) → Event → Db (Unit {0})
  create d none event = raise (plain "audit outbox repository is not configured")
  create d (some none) event = raise (plain "audit outbox repository is not configured")
  create d (some (some pool)) event = insert d (some on_pool) event
