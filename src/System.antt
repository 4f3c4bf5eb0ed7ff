-- ===== src/System.antt =====
-- The program over time: one operation after another on the tables of migrations/, each in a session
-- of its own, with any request, any answers of the identity service and any failing calls. The
-- operations are Authorize of internal/exchange/service.go, SeedCanonical of internal/policy/seed.go,
-- for any list of policies, and OutboxRepository.Create of internal/audit/outbox.go, for any event.
pub mod Stable
pub mod Integrity
pub mod Trail
pub mod Growth
pub mod Lookup
pub mod Concurrent
use taifa_exchange.Audit.Event.{Event}
use taifa_exchange.Audit.Outbox.{create}
use taifa_exchange.Base.{List, Option, ◌≡◌}
use taifa_exchange.Database.Session.{Pool, Session}
use taifa_exchange.Database.Tables.{Tables, empty_tables}
use taifa_exchange.Exchange.Model.{AuthorizeInput}
use taifa_exchange.Exchange.Service.{Service, Surroundings, authorize}
use taifa_exchange.Ids.{Draw}
use taifa_exchange.Policy.Seed.{SeedPolicy, seed_with}
use taifa_exchange.Text.{Unicode}

module _ ⦃u : Unicode⦄ where
  -- One operation takes the tables `t` to `t'`.
  pub data Step (t t' : Tables) : Type 0 where
    authorizes :
        (env : Surroundings) (service : Option Service) (input : AuthorizeInput) (s : Session)
        → s.tables ≡ t
        → t' ≡ (authorize env service input s).1.tables
        → Step t t'
    seeds :
        (draws : SeedPolicy → Draw) (policies : List SeedPolicy) (seeder : Option (Option Pool))
        (s : Session)
        → s.tables ≡ t
        → t' ≡ (seed_with draws policies seeder s).1.tables
        → Step t t'
    creates :
        (d : Draw) (repository : Option (Option Pool)) (event : Event) (s : Session)
        → s.tables ≡ t
        → t' ≡ (create d repository event s).1.tables
        → Step t t'

  -- Any number of operations.
  pub data Steps (t : Tables) : Tables → Type 0 where
    here : Steps t t
    next : {a b : Tables} → Steps t a → Step a b → Steps t b

  -- The tables that the program can reach from those of the migrations.
  abbrev pub Reachable : Tables → Type 0
  Reachable t = Steps empty_tables t
