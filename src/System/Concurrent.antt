-- ===== src/System/Concurrent.antt =====
-- Requests that are served at the same time: internal/exchange/service.go, Authorize, comes to its
-- result and then runs one transaction, and the operations of other sessions can stand between the
-- two. Transactions, and the lookup of one policy, are served one after another.
pub mod Interleaved
pub mod Justified
pub mod Finishing
pub mod Sequential
use taifa_exchange.Audit.Event.{Event}
use taifa_exchange.Audit.Outbox.{create}
use taifa_exchange.Base.{Bool, List, Option, [], ◌++◌, ◌∷◌, ◌≡◌, true}
use taifa_exchange.Database.Session.{Pool, Session}
use taifa_exchange.Database.Tables.{Tables}
use taifa_exchange.Exchange.Model.{AuthorizeInput, AuthorizeResult}
use taifa_exchange.Exchange.Service.{Service, Surroundings, conclude, lookups}
use taifa_exchange.Exchange.Service.Course.{Explained}
use taifa_exchange.Ids.{Draw}
use taifa_exchange.Policy.Seed.{SeedPolicy, seed_with}
use taifa_exchange.Outcome.{ok}
use taifa_exchange.Text.{Unicode}

-- A call of Authorize that has come to its result and has not yet persisted it.
pub record Pending : Type 0 where
  pub env : Surroundings
  pub service : Option Service
  pub input : AuthorizeInput
  pub result : AuthorizeResult

pub record State : Type 0 where
  pub tables : Tables
  pub pending : List Pending

-- No call is under way.
abbrev pub idle : Tables → State
idle t = record { tables = t; pending = [] }

module _ ⦃u : Unicode⦄ where
  -- The result is what the lookups give on these tables.
  abbrev pub ExplainedBy : Tables → Pending → Type 0
  ExplainedBy t p = Explained p.env p.service p.input t p.result

  -- The tables behind the transaction of a call, in a session of its own.
  abbrev pub persisted : Pending → Session → Tables
  persisted p s = (conclude p.env p.service p.result s).1.tables

  -- One move of the system; `seeding` says whether the seeder can run.
  pub data Move (seeding : Bool) (x : State) : State → Type 0 where
    looks_up :
        (p : Pending) (s : Session)
        → s.tables ≡ x.tables
        → (lookups p.env p.service p.input s).0 ≡ ok p.result
        → Move seeding x (record x { pending = p ∷ x.pending })
    persists :
        (before : List Pending) (p : Pending) (after : List Pending) (s : Session)
        → x.pending ≡ before ++ p ∷ after
        → s.tables ≡ x.tables
        → Move seeding x (record { tables = persisted p s; pending = before ++ after })
    creates_event :
        (d : Draw) (repository : Option (Option Pool)) (event : Event) (s : Session)
        → s.tables ≡ x.tables
        → Move seeding x (record x { tables = (create d repository event s).1.tables })
    seeds_policies :
        (draws : SeedPolicy → Draw) (policies : List SeedPolicy) (seeder : Option (Option Pool))
        (s : Session)
        → seeding ≡ true
        → s.tables ≡ x.tables
        → Move seeding x (record x { tables = (seed_with draws policies seeder s).1.tables })

  pub data Moves (seeding : Bool) (x : State) : State → Type 0 where
    still : Moves seeding x x
    moving : {y z : State} → Moves seeding x y → Move seeding y z → Moves seeding x z
