-- ===== src/Tests/Interleaving.antt =====
-- Requests that are served at the same time, on the data of the fixtures.
use taifa_exchange.Base.{In, [], ◌∷◌, ◌≡◌, ◌⊎◌, false, inl, refl, some, subst, sym, true}
use taifa_exchange.Database.Statements.{decision_exists, outbox_exists}
use taifa_exchange.Database.Tables.{Tables, empty_tables}
use taifa_exchange.Exchange.Repository.{decision_row}
use taifa_exchange.Exchange.Service.Lookups.{lookups-authorize}
use taifa_exchange.Exchange.Service.{conclude}
use taifa_exchange.Exchange.Service.Laws.{recorded}
use taifa_exchange.Outcome.{ok}
use taifa_exchange.System.Concurrent.{
  Moves, Pending, State, idle, looks_up, moving, persisted, persists, still,
}
use taifa_exchange.System.Concurrent.Finishing.{pending_finishes}
use taifa_exchange.System.Concurrent.Interleaved.{Moves-SoundAndAudited}
use taifa_exchange.System.Concurrent.Justified.{IsJustified, Moves-Justified}
use taifa_exchange.System.Concurrent.Sequential.{Steps-Moves}
use taifa_exchange.System.Integrity.{Sound}
use taifa_exchange.System.Trail.{Audited}
use taifa_exchange.Tests.Authorizations.{came}
use taifa_exchange.Tests.Fixtures.{ascii_only, environment, input, pool, service, session}
use taifa_exchange.Tests.History.{after, two_steps}
use taifa_exchange.Ids.{new_audit_event_id, new_decision_id}

-- A call that has come to its result.
abbrev call : Pending
call = record { env = environment; service = some service; input = input; result = came.0 }

-- The same call, asked for again before it is recorded, by a client that repeats its request.
abbrev both : State
both = record { tables = session.tables; pending = call ∷ call ∷ [] }

looked_up : Moves false (idle session.tables) both
looked_up =
    let came_up = lookups-authorize environment (some service) input session came.0 came.1 in
    moving (moving still (looks_up call session refl came_up)) (looks_up call session refl came_up)

-- The first of them is recorded.
abbrev one_left : State
one_left = record { tables = persisted call session; pending = call ∷ [] }

one_recorded : Moves false (idle session.tables) one_left
one_recorded = moving looked_up (persists [] call (call ∷ []) session refl refl)

new_decision_id_free :
    decision_exists (new_decision_id environment.decision_draw) session.tables.decisions ≡ false
new_decision_id_free = unfold decision_exists in refl

new_event_id_free :
    outbox_exists (new_audit_event_id environment.event_draw) session.tables.outbox ≡ false
new_event_id_free = unfold outbox_exists in refl

stored_row : In (decision_row came.0.decision_record) one_left.tables.decisions
stored_row =
    let finished =
      pending_finishes false session.tables both call pool session looked_up (inl refl) refl refl
        refl new_decision_id_free new_event_id_free in
    subst (λ (t : Tables). In (decision_row came.0.decision_record) t.decisions) (sym finished.1)
      (inl refl)

pending_finishes_example :
    ((conclude environment (some service) came.0 session).0 ≡ ok came.0)
    × ((conclude environment (some service) came.0 session).1.tables
        ≡ recorded environment came.0 session.tables)
pending_finishes_example =
    pending_finishes false session.tables both call pool session looked_up (inl refl) refl refl refl
      new_decision_id_free new_event_id_free

Moves-Justified_example :
    In (decision_row came.0.decision_record) session.tables.decisions
    ⊎ IsJustified one_left.tables (decision_row came.0.decision_record)
Moves-Justified_example =
    Moves-Justified session.tables one_left one_recorded (decision_row came.0.decision_record)
      stored_row

Moves-SoundAndAudited_example : Sound after × Audited after
Moves-SoundAndAudited_example =
    Moves-SoundAndAudited (idle after) true (Steps-Moves empty_tables after two_steps)
