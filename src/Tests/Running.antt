-- ===== src/Tests/Running.antt =====
-- Runs of internal/app/app.go, Run, and of cmd/.
use taifa_exchange.Tests.Fixtures.{ascii_only, client, config, draw, driver, pool}
use taifa_exchange.App.{assemble, new_app, open_database}
use taifa_exchange.App.Lifecycle.{Move, cancel, run, select, serve_failed, shut_down, stop_serving}
use taifa_exchange.App.Lifecycle.Settled.{Settled, run-Settled}
use taifa_exchange.Base.{
  List, [], ◌∷◌, ◌++◌, ◌≡◌, ◌⊎◌, if◌then◌else◌, none, refl, some, true, false, ◌==◌, contains, pos,
  ◌*◌, ◌^◌,
}
use taifa_exchange.Command.Seed.{seed_main, seed_report}
use taifa_exchange.Command.Seed.Laws.{Failed, Succeeded, seed_main_again, seed_main_ends, timeout}
use taifa_exchange.Command.Serve.{exited, serve_main}
use taifa_exchange.Command.Serve.Laws.{Accounted, IsExited, serve_main-Accounted, serve_main_exits}
use taifa_exchange.Config.{Getenv, load}
use taifa_exchange.Database.Driver.{open_pool}
use taifa_exchange.Database.Session.{Session, call, in_tx}
use taifa_exchange.Database.Tables.{empty_tables, not_blank, policy_row_ok}
use taifa_exchange.Ids.{Draw, hex, new_audit_event_id, new_id}
use taifa_exchange.Outcome.{ok, plain}
use taifa_exchange.Policy.Seed.{
  SeedPolicy, SeedSummary, no_changes, insert_seed_policy, insert_seed_policy_capability,
  insert_seed_policy_role, policy_seeded_audit_event, record_seeded, seed_all, seed_capabilities,
  seed_policy, seed_roles, seed_with,
}
use taifa_exchange.Audit.Event.{with_defaults}
use taifa_exchange.Audit.Outbox.{insert, null_if_empty, outbox_row}
use taifa_exchange.Database.Statements.{
  capability_conflict, insert_capability, insert_outbox_row, insert_policy, insert_role,
  outbox_exists, policy_conflict, policy_exists, role_conflict,
}
use taifa_exchange.Policy.Seed.Canonical.{seed_canonical}
use taifa_exchange.Text.{
  ascii_upper, is_space, nth, to_upper, trim_left, trim_right, trim_space, upper_by,
}

abbrev environment : Getenv
environment key = if key == "TAIFA_EXCHANGE_DATABASE_DSN" then "postgres://" else ""

-- A signal arrives, while the server goes on; then the shutdown ends.
abbrev moves : List Move
moves = ([] ++ (cancel ∷ []) ++ (select false ∷ []) ++ (shut_down none ∷ []))

serve_main_exits_example : IsExited (serve_main driver environment moves)
serve_main_exits_example = serve_main_exits driver environment [] [] [] [] cancel false none tt

exits_with_0 : serve_main driver environment moves ≡ exited 0
unfolding serve_main new_app open_database open_pool run load
exits_with_0 = refl

serve_main-Accounted_example :
    Accounted driver environment moves (serve_main driver environment moves)
serve_main-Accounted_example = serve_main-Accounted driver environment moves

-- The server fails.
abbrev breaks : List Move
breaks = stop_serving (serve_failed (plain "address in use")) ∷ select true ∷ []

run-Settled_example :
    Settled breaks
      (run (some (assemble config (some pool) (some client))) breaks).phase
      (run (some (assemble config (some pool) (some client))) breaks).pool
run-Settled_example = run-Settled config (some pool) (some client) breaks

abbrev empty_session : Session
empty_session = record { tables = empty_tables; faults = [] }

-- Each event has an identifier of its own.
abbrev draws : SeedPolicy → Draw
draws p = record draw { stamp = p.id }

seed_main_ends_example :
    ((summary : SeedSummary) × Succeeded driver environment summary empty_session
        (seed_main draws driver environment empty_session))
    ⊎ Failed driver environment empty_session (seed_main draws driver environment empty_session)
seed_main_ends_example = seed_main_ends driver environment draws empty_session

status_0 : (seed_main draws driver environment empty_session).0.status ≡ 0
unfolding seed_main open_pool load seed_canonical seed_with in_tx call seed_all seed_policy
    insert_seed_policy insert_policy record_seeded seed_roles seed_capabilities
    insert_seed_policy_role insert_seed_policy_capability insert_role insert_capability
    policy_row_ok contains not_blank policy_conflict role_conflict capability_conflict policy_exists
    insert insert_outbox_row outbox_row with_defaults outbox_exists policy_seeded_audit_event
    null_if_empty new_audit_event_id new_id hex trim_space is_space trim_left trim_right to_upper
    upper_by ascii_upper nth
status_0 = refl

-- The first run prints six of each.
abbrev all_new : SeedSummary
all_new = record { policies = 6; roles = 6; capabilities = 6; audit_events = 6 }

first_line :
    (seed_main draws driver environment empty_session).0.printed
    ≡ some (all_new, pos (5 * 60 * 10 ^ 9))
unfolding seed_main open_pool load seed_canonical seed_with in_tx call seed_all seed_policy
    insert_seed_policy insert_policy record_seeded seed_roles seed_capabilities
    insert_seed_policy_role insert_seed_policy_capability insert_role insert_capability
    policy_row_ok contains not_blank policy_conflict role_conflict capability_conflict policy_exists
    insert insert_outbox_row outbox_row with_defaults outbox_exists policy_seeded_audit_event
    null_if_empty new_audit_event_id new_id hex trim_space is_space trim_left trim_right to_upper
    upper_by ascii_upper nth
first_line = refl

abbrev again : Session
again = record { tables = (seed_main draws driver environment empty_session).1.tables; faults = [] }

seed_main_again_example :
    ((seed_main draws driver environment again).0
      ≡ seed_report (timeout driver environment) (ok no_changes))
    × ((seed_main draws driver environment again).1.tables ≡ again.tables)
seed_main_again_example =
    seed_main_again driver environment draws draws empty_session again status_0 refl refl
