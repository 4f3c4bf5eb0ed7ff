-- ===== src/System/Trail.antt =====
-- About the audit trail over time: every decision has its event.
use taifa_exchange.Audit.Event.{
  resource_authorization_decision, result_allowed, result_denied, with_defaults,
}
use taifa_exchange.Base.{
  List, [], ◌∷◌, ◌≡◌, ◌⊎◌, arith, if◌then◌else◌, inr, ◌==◌, All, map_All, inl, refl,
}
use taifa_exchange.Database.Statements.{
  insert_capability, insert_outbox_row, insert_policy, insert_role,
}
use taifa_exchange.Database.Tables.{
  CapabilityRow, DecisionRow, OutboxRow, PolicyRow, RoleRow, Tables,
}
use taifa_exchange.Exchange.Model.{decision_allow, AuthorizeResult}
use taifa_exchange.Audit.Outbox.{outbox_row}
use taifa_exchange.Exchange.Repository.{decision_row}
use taifa_exchange.Exchange.Results.{audit_event_for_result}
use taifa_exchange.Exchange.Service.{Surroundings}
use taifa_exchange.System.{Reachable}
use taifa_exchange.System.Stable.{Stable, Steps-keeps}
use taifa_exchange.Text.{Unicode}

-- The event is about the decision, and says whether it was allowed.
abbrev pub IsEventOf : DecisionRow → OutboxRow → Type 0
IsEventOf d e =
    (e.resource_type ≡ resource_authorization_decision)
    × (e.resource_id ≡ d.id)
    × (e.result ≡ (if d.decision == decision_allow then result_allowed else result_denied))

abbrev pub HasEvent : List OutboxRow → DecisionRow → Type 0
HasEvent [] d = ⊥
HasEvent (e ∷ es) d = IsEventOf d e ⊎ HasEvent es d

abbrev pub Audited : Tables → Type 0
Audited t = All (HasEvent t.outbox) t.decisions

Audited-cons : (e : OutboxRow) (t : Tables) → Audited t → All (HasEvent (e ∷ t.outbox)) t.decisions
Audited-cons e t h = map_All (λ d k. inr k) t.decisions h

insert_policy-Audited : (r : PolicyRow) (t : Tables) → Audited t → Audited (insert_policy r t).1
unfolding insert_policy
insert_policy-Audited r t h = ground arith

insert_role-Audited : (r : RoleRow) (t : Tables) → Audited t → Audited (insert_role r t).1
unfolding insert_role
insert_role-Audited r t h = ground arith

insert_capability-Audited :
    (r : CapabilityRow) (t : Tables) → Audited t → Audited (insert_capability r t).1
unfolding insert_capability
insert_capability-Audited r t h = ground arith

insert_outbox_row-Audited :
    (r : OutboxRow) (t : Tables) → Audited t → Audited (insert_outbox_row r t).1
unfolding insert_outbox_row
insert_outbox_row-Audited r t h = ground (arith, Audited-cons r t h)

module _ ⦃u : Unicode⦄ where
  -- The row of the event of a result.
  abbrev pub event_row : Surroundings → AuthorizeResult → OutboxRow
  event_row env result =
      outbox_row (with_defaults env.insert_draw (audit_event_for_result env.event_draw result))

  pub Audited-Stable : Stable Audited
  unfolding audit_event_for_result outbox_row decision_row with_defaults
  Audited-Stable = record {
    statements = record {
      policy = insert_policy-Audited;
      role = insert_role-Audited;
      capability = insert_capability-Audited;
      outbox = insert_outbox_row-Audited;
    };
    record_both =
        λ env result t fits h. (inl (refl, refl, refl), Audited-cons (event_row env result) t h);
  }

  -- In all tables that the program reaches from the empty ones, through any sequence of operations
  -- with any failing calls, every decision has an audit event in the outbox that names it and says
  -- whether it was allowed.
  pub Reachable-Audited : (t : Tables) → Reachable t → Audited t
  Reachable-Audited t reached = Steps-keeps Audited Audited-Stable reached tt
