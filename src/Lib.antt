-- ===== src/Lib.antt =====
-- Taifa Exchange decides whether an actor may call an operation of a target system. It asks the
-- identity service Taifa ID who the actor is and what the organization can do, looks the policy of
-- the route up, evaluates it, records the decision and an audit event in one transaction, and
-- answers over HTTP. A seeder fills the policy tables.
--
-- The files and the code that each of them models, in the order in which they build on each other:
--   Base, Text, Outcome, Json, Apart: shared names and integers; what the code uses of Go's strings
--     and encoding/json; errors and results; lists whose elements differ pairwise in a key.
--   Parsing: strconv.ParseInt and time.ParseDuration, as internal/config/config.go uses them.
--   Ids: internal/platform/ids/ids.go. The clock and the random bytes are an argument, Draw.
--   Config: internal/config/config.go. The environment is an argument.
--   Database: migrations/000001_init.up.sql (Tables), the SQL statements (Statements),
--     internal/platform/postgres/tx.go (Session, Atomic, Quiet, Keeps) and db.go (Driver), and chains
--     that only read (Reads).
--   Audit: internal/audit/event.go and outbox.go.
--   Policy: internal/policy/model.go (Model, Normalize), evaluator.go (Evaluator), repository.go
--     (Repository), service.go (Service), seed.go (Seed, Seed/Canonical).
--   Taifaid: internal/taifaid/dto.go and client.go. The network is an argument.
--   Exchange: internal/exchange/model.go and dto.go (Model), service.go (Request for the
--     validation, Results for the results and the audit event, Service for Authorize),
--     repository.go (Repository), handler.go (Handler).
--   Httpserver: internal/platform/httpserver/errors.go and json.go (Writer), correlation.go,
--     logging.go and recoverer.go (Middleware), server.go (Server).
--   App: internal/app/app.go, with Run in Lifecycle, and internal/exchange/routes.go in Route. The
--     driver is an argument.
--   Command: cmd/taifa-exchange/main.go (Serve) and cmd/taifa-exchange-seed/main.go (Seed).
--   System: any sequence of the operations that write to the tables. Concurrent: operations that are
--     served at the same time.
--   Tests: concrete runs.
-- A file named Laws, or for what it proves, stands below the component that it is about.
--
-- State: a Session is the tables and the calls of the database that will fail. A Go method that
-- reaches the database is a function from a session to a result and a session (Db); an error is a
-- value of Result, as in Go. A nil pointer is `none` of an Option, and so is a nil slice where the
-- code can tell it from an empty one. Authorize is one function for each dependency that it asks:
-- authorize_by, with_actor, with_capabilities, decide and settle are its consecutive parts, each with
-- the early return of its dependency. They take the way in which the code ends with a result, which
-- is the same at each return: authorize is authorize_by with conclude, which calls persist and
-- returns. lookups is authorize_by with an end that only returns, the part in front of persist.
-- A policy's timestamps, which nothing reads, are left out.
--
-- A response goes to a client to which writes can fail: for each write, the request has whether it
-- goes through (writes). Marshalling the answers cannot fail, since they hold texts only.
--
-- A failing call stands for every refusal of the server that is not one of the constraints in
-- Tables, such as that of a text with U+0000.
--
-- Run of internal/app/app.go is a function from a sequence of moves, one for each thing that can
-- happen next: the context ends, ListenAndServe returns, the select statement is reached, Shutdown
-- returns. A move that is not possible where the program stands changes nothing, and the select
-- statement is given the case to take where both are ready.
--
-- Every loop is recursion on the list or the text that the code walks, but for two that run on fuel:
-- the loop of ParseDuration, with one unit for each character, which Parsing/Duration/Fuel shows to be
-- enough, and the count of binary digits for a float64, with the number itself as fuel, for which
-- Parsing/Float/Laws shows the same. Durations and numbers of connections are integers; status codes,
-- counts and instants are numbers that the code does not compute with beyond adding one to a count.
--
-- Arguments in place of code that is not in the repository: the upper-case table above U+007F
-- (Unicode), with the facts that an upper-case letter is its own upper case and that white space has
-- no case; the network; the driver; the order of texts that the database sorts by.
--
-- Within a session, one call of the database follows another with no other session between them.
-- Concurrent splits each call of Authorize in two, where it has come to its result and has not yet
-- persisted it, and lets other sessions' calls stand in between: the result is the one that lookups
-- gives in the tables of that moment, and what is left is conclude. Transactions are served one
-- after another, and the three queries for one policy see the same tables.
--
-- Not modelled: what net/http does between ListenAndServe and a handler, the third-party router, the
-- clock package, which nothing uses, the log texts, the time limits of contexts, and indexes.
pub mod Base
pub mod Text
pub mod Outcome
pub mod Parsing
pub mod Ids
pub mod Config
pub mod Json
pub mod Database
pub mod Audit
pub mod Policy
pub mod Taifaid
pub mod Exchange
pub mod Httpserver
pub mod Apart
pub mod App
pub mod Command
pub mod System
pub mod Tests
