-- ===== src/Tests/History.antt =====
-- Runs of several operations on the same tables.
use taifa_exchange.Tests.Fixtures.{ascii_only, draw, environment, input, pool, service, session}
use taifa_exchange.Tests.Authorizations.{came}
use taifa_exchange.Base.{In, [], ◌∷◌, none, refl, some, true, Option, contains, ◌≡◌}
use taifa_exchange.Database.Session.{Session, call, in_tx}
use taifa_exchange.Database.Tables.{Tables, empty_tables, PolicyRow, not_blank, policy_row_ok}
use taifa_exchange.Exchange.Repository.{decision_row}
use taifa_exchange.Exchange.Service.{authorize}
use taifa_exchange.Policy.Seed.{
  SeedPolicy, seed_with, insert_seed_policy, insert_seed_policy_capability, insert_seed_policy_role,
  policy_seeded_audit_event, record_seeded, seed_all, seed_capabilities, seed_policy, seed_roles,
  seed_row,
}
use taifa_exchange.Policy.Seed.Canonical.{care_claim_create}
use taifa_exchange.Ids.{Draw, hex, new_audit_event_id, new_id}
use taifa_exchange.System.{Reachable, Steps, authorizes, here, next, seeds}
use taifa_exchange.System.Growth.{Grown, Steps-Grown, authorize-Lasting}
use taifa_exchange.System.Trail.{event_row}
use taifa_exchange.Audit.Event.{with_defaults}
use taifa_exchange.Audit.Outbox.{insert, null_if_empty, outbox_row}
use taifa_exchange.Database.Statements.{
  capability_conflict, find_policy_row, insert_capability, insert_outbox_row, insert_policy,
  insert_role, outbox_exists, policy_conflict, policy_exists, role_conflict,
}
use taifa_exchange.System.Lookup.{find_policy_row-Steps}
use taifa_exchange.Text.{
  ascii_upper, is_space, nth, to_upper, trim_left, trim_right, trim_space, upper_by,
}

abbrev draws : SeedPolicy → Draw
draws p = record draw { stamp = p.id }

-- The tables with one policy.
abbrev pub seeded : Tables
seeded =
    (seed_with draws (care_claim_create ∷ []) (some (some pool))
      (record { tables = empty_tables; faults = [] })).1.tables

-- An authorization of which the last call fails, once the server has done its work.
abbrev uncertain : Session
uncertain = record {
  tables = seeded;
  faults =
      none
      ∷ none
      ∷ none
      ∷ none
      ∷ some (record { error = "connection lost"; performed = true })
      ∷ [];
}

abbrev pub after : Tables
after = (authorize environment (some service) input uncertain).1.tables

one_step : Reachable seeded
one_step = next here (
    seeds draws (care_claim_create ∷ []) (some (some pool))
      (record { tables = empty_tables; faults = [] }) refl refl)

pub later : Steps seeded after
later = next here (authorizes environment (some service) input uncertain refl refl)

pub two_steps : Reachable after
two_steps = next one_step (authorizes environment (some service) input uncertain refl refl)

Steps-Grown_example : Grown seeded after
Steps-Grown_example = Steps-Grown seeded after later

authorize-Lasting_example :
    let t = (authorize environment (some service) input session).1.tables in
    In (decision_row came.0.decision_record) t.decisions
    × In (event_row environment came.0) t.outbox
authorize-Lasting_example =
    authorize-Lasting environment (some service) input session came.0
      (authorize environment (some service) input session).1.tables came.1 here

abbrev found_row : Tables → Option PolicyRow
found_row t =
    find_policy_row "TAIFA_CARE" care_claim_create.method care_claim_create.route_pattern
      care_claim_create.operation t.policies

stored : found_row seeded ≡ some (seed_row care_claim_create)
unfolding seed_with in_tx call seed_all seed_policy insert_seed_policy insert_policy record_seeded
    seed_roles seed_capabilities insert_seed_policy_role insert_seed_policy_capability insert_role
    insert_capability policy_row_ok contains not_blank policy_conflict role_conflict
    capability_conflict policy_exists insert insert_outbox_row outbox_row with_defaults
    outbox_exists policy_seeded_audit_event null_if_empty new_audit_event_id new_id hex trim_space
    is_space trim_left trim_right to_upper upper_by ascii_upper nth find_policy_row
stored = refl

find_policy_row-Steps_example : found_row after ≡ some (seed_row care_claim_create)
find_policy_row-Steps_example =
    find_policy_row-Steps "TAIFA_CARE" care_claim_create.method care_claim_create.route_pattern
      care_claim_create.operation seeded after (seed_row care_claim_create) later one_step stored
