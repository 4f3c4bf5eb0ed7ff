-- ===== src/Exchange/Service/Legible.antt =====
-- About internal/exchange/service.go, persist: what can be read back from the rows that it adds.
use taifa_exchange.Exchange.Service.Laws.{recorded}
use taifa_exchange.Audit.Outbox as Outbox
use taifa_exchange.Audit.Event.{with_defaults}
use taifa_exchange.Audit.Outbox.{outbox_row}
use taifa_exchange.Base.{
  Bool-cases, List, Option, String, [], eq_iff, if◌then◌else◌, inl, inr, none, refl, some, sym, ℕ,
  ◌==◌, ◌∷◌, ◌≡◌,
}
use taifa_exchange.Database.Tables.{DecisionRow, OutboxRow, Tables, Value, text, texts}
use taifa_exchange.Exchange.Model.{AuthorizeResult, DecisionRecord}
use taifa_exchange.Exchange.Repository.{decision_row, null_if_empty}
use taifa_exchange.Exchange.Results.{audit_event_for_result}
use taifa_exchange.Exchange.Service.{Surroundings}
use taifa_exchange.Text.{Unicode}

-- NULL is read as the empty text.
abbrev or_blank : Option String → String
or_blank none = ""
or_blank (some s) = s

or_blank-null_if_empty : (s : String) → or_blank (null_if_empty s) ≡ s
or_blank-null_if_empty s = elim (Bool-cases (s == "")) [
  | inl blank ↦ rw blank (sym ((eq_iff s "").0 blank))
  | inr full ↦ rw full refl
]

or_blank-outbox_null : (s : String) → or_blank (Outbox.null_if_empty s) ≡ s
unfolding Outbox.null_if_empty
or_blank-outbox_null s = or_blank-null_if_empty s

-- The decision that a row of the decisions tells.
abbrev pub record_of_row : DecisionRow → DecisionRecord
record_of_row r = record {
  id = r.id;
  decision = r.decision;
  target_system = r.target_system;
  route = r.route;
  method = r.method;
  operation = r.operation;
  organization_id = r.organization_id;
  actor_context_id = or_blank r.actor_context_id;
  person_id = or_blank r.person_id;
  credential_id = or_blank r.credential_id;
  session_id = or_blank r.session_id;
  matched_policy_id = or_blank r.matched_policy_id;
  deny_reason = or_blank r.deny_reason;
  request_correlation_id = or_blank r.request_correlation_id;
  taifa_id_correlation_id = or_blank r.taifa_id_correlation_id;
  actor_roles = r.actor_roles_json;
  organization_capabilities = r.organization_capabilities_json;
  required_roles = r.required_roles_json;
  required_capabilities = r.required_capabilities_json;
  created_at = r.created_at;
}

-- The value of the member with a name, where the payload has one.
abbrev member : String → List (String × Value) → Option Value
member name [] = none
member name ((key, value) ∷ rest) = if key == name then some value else member name rest

abbrev text_of : Option Value → String
text_of (some (text s)) = s
text_of _ = ""

abbrev texts_of : Option Value → Option (List String)
texts_of (some (texts l)) = l
texts_of _ = none

-- The decision of the instant `at` that the payload of an event tells.
abbrev pub record_of_payload : ℕ → List (String × Value) → DecisionRecord
record_of_payload at p = record {
  id = text_of (member "decision_id" p);
  decision = text_of (member "decision" p);
  target_system = text_of (member "target_system" p);
  route = text_of (member "route" p);
  method = text_of (member "method" p);
  operation = text_of (member "operation" p);
  organization_id = text_of (member "organization_id" p);
  actor_context_id = text_of (member "actor_context_id" p);
  person_id = text_of (member "person_id" p);
  credential_id = text_of (member "credential_id" p);
  session_id = text_of (member "session_id" p);
  matched_policy_id = text_of (member "matched_policy_id" p);
  deny_reason = text_of (member "deny_reason" p);
  request_correlation_id = text_of (member "exchange_correlation_id" p);
  taifa_id_correlation_id = text_of (member "taifa_id_correlation_id" p);
  actor_roles = texts_of (member "roles" p);
  organization_capabilities = texts_of (member "organization_capabilities" p);
  required_roles = texts_of (member "required_roles" p);
  required_capabilities = texts_of (member "required_capabilities" p);
  created_at = at;
}

-- The tables `t` have one more decision than `t₀`, from which the whole record of the result is read
-- back, and one more event, which names who asked, for what organization and with which outcome, and
-- from whose payload the record is read back too, but for its instant.
pub record IsLegible (result : AuthorizeResult) (t₀ t : Tables) : Type 0 where
  pub row : DecisionRow
  pub event : OutboxRow
  pub decisions : t.decisions ≡ row ∷ t₀.decisions
  pub outbox : t.outbox ≡ event ∷ t₀.outbox
  pub row_tells : record_of_row row ≡ result.decision_record
  pub payload_tells :
      (at : ℕ)
      → record_of_payload at event.payload_json ≡ record result.decision_record { created_at = at }
  pub event_decision : event.resource_id ≡ result.decision_record.id
  pub event_actor : or_blank event.actor_id ≡ result.decision_record.person_id
  pub event_subject : or_blank event.subject_id ≡ result.decision_record.organization_id
  pub event_correlation :
      or_blank event.correlation_id ≡ result.decision_record.request_correlation_id
  pub event_result :
      event.result ≡ (if result.decision_record.decision == "ALLOW" then "ALLOWED" else "DENIED")

record_of_row-decision_row : (d : DecisionRecord) → record_of_row (decision_row d) ≡ d
unfolding decision_row
record_of_row-decision_row d =
    rw (or_blank-null_if_empty d.actor_context_id) rw (or_blank-null_if_empty d.person_id) rw
      (or_blank-null_if_empty d.credential_id) rw (or_blank-null_if_empty d.session_id) rw
      (or_blank-null_if_empty d.matched_policy_id) rw (or_blank-null_if_empty d.deny_reason) rw
      (or_blank-null_if_empty d.request_correlation_id) rw
      (or_blank-null_if_empty d.taifa_id_correlation_id) refl

pub recorded-IsLegible :
    ⦃u : Unicode⦄ (env : Surroundings) (result : AuthorizeResult) (t : Tables)
    → IsLegible result t (recorded env result t)
unfolding audit_event_for_result outbox_row with_defaults
recorded-IsLegible env result t = record {
  row = decision_row result.decision_record;
  event = outbox_row (with_defaults env.insert_draw (audit_event_for_result env.event_draw result));
  decisions = refl;
  outbox = refl;
  row_tells = record_of_row-decision_row result.decision_record;
  payload_tells = λ at. refl;
  event_decision = refl;
  event_actor = or_blank-outbox_null result.decision_record.person_id;
  event_subject = or_blank-outbox_null result.decision_record.organization_id;
  event_correlation = or_blank-outbox_null result.decision_record.request_correlation_id;
  event_result = refl;
}
