-- ===== src/App/Lifecycle.antt =====
-- internal/app/app.go, Run: the goroutine that serves, the goroutine that waits for it or for the end
-- of the context, and the shutdown. Their interleaving is a sequence of moves.
pub mod Laws
pub mod Settled
use taifa_exchange.App.{App}
use taifa_exchange.Database.Session.{Pool}
use taifa_exchange.Exchange.Handler.{Handler}
use taifa_exchange.Httpserver.Server.{Server}
use taifa_exchange.Base.{Bool, List, Option, [], ◌∷◌, false, if◌then◌else◌, none, some, true, ◌&&◌}
use taifa_exchange.Outcome.{Error, plain}

-- What `ListenAndServe` returns: nil, `http.ErrServerClosed`, or another error.
pub data Served : Type 0 where
  served_nil server_closed : Served
  serve_failed : Error → Served

pub data PoolState : Type 0 where
  no_pool pool_open pool_closed : PoolState

-- Where Run stands: at the select statement, in the call of `Shutdown`, or at its end.
pub data Phase : Type 0 where
  waiting shutting_down : Phase
  returned : Option Error → Phase

-- The goroutine still serves; the channel serverErrors, with its one place; the context is done.
pub record Process : Type 0 where
  pub serving : Bool
  pub server_errors : Option (Option Error)
  pub cancelled : Bool
  pub phase : Phase
  pub pool : PoolState

-- What can happen next: the context ends; ListenAndServe returns; the select statement is reached,
-- with the case that it takes if both are ready; Shutdown returns.
pub data Move : Type 0 where
  cancel : Move
  stop_serving : Served → Move
  select : Bool → Move
  shut_down : Option Error → Move

-- What the goroutine sends.
abbrev pub sent : Served → Option Error
sent served_nil = none
sent server_closed = none
sent (serve_failed e) = some e

-- `if a.dbPool != nil { a.dbPool.Close() }`
abbrev pub close_pool : PoolState → PoolState
close_pool no_pool = no_pool
close_pool pool_open = pool_closed
close_pool pool_closed = pool_closed

abbrev pub finish_with : Option Error → Process → Process
finish_with r p = record p { phase = returned r; pool = close_pool p.pool }

-- The case of the channel, once it has a value.
abbrev pub receive : Option Error → Process → Process
receive r p = finish_with r (record p { server_errors = none })

abbrev pub begin_shutdown : Process → Process
begin_shutdown p = record p { phase = shutting_down }

-- The select statement takes a case that is ready; with none it blocks.
abbrev pub take_case : Bool → Bool → Option (Option Error) → Process → Process
take_case prefer_done false none p = p
take_case prefer_done true none p = begin_shutdown p
take_case prefer_done false (some r) p = receive r p
take_case true true (some r) p = begin_shutdown p
take_case false true (some r) p = receive r p

abbrev pub at_select : Bool → Phase → Process → Process
at_select prefer_done waiting p = take_case prefer_done p.cancelled p.server_errors p
at_select prefer_done shutting_down p = p
at_select prefer_done (returned r) p = p

-- Behind Shutdown: its error, with the pool left as it is, or a clean end.
abbrev pub after_shutdown : Option Error → Phase → Process → Process
after_shutdown r waiting p = p
after_shutdown none shutting_down p = finish_with none p
after_shutdown (some e) shutting_down p = record p { phase = returned (some e) }
after_shutdown r (returned r') p = p

unfoldable pub step : Process → Move → Process
step p cancel = record p { cancelled = true }
step p (stop_serving r) =
    if p.serving then record p { serving = false; server_errors = some (sent r) } else p
step p (select prefer_done) = at_select prefer_done p.phase p
step p (shut_down r) = after_shutdown r p.phase p

unfoldable pub run_from : Process → List Move → Process
unfolding step
run_from p [] = p
run_from p (m ∷ ms) = run_from (step p m) ms

abbrev pool_state : Option Pool → PoolState
pool_state none = no_pool
pool_state (some pool) = pool_open

abbrev not_initialized : Process
not_initialized = record {
  serving = false;
  server_errors = none;
  cancelled = false;
  phase = returned (some (plain "application is not initialized"));
  pool = no_pool;
}

-- Run at its select statement, with the goroutine started.
abbrev pub started : Option Pool → Process
started pool = record {
  serving = true;
  server_errors = none;
  cancelled = false;
  phase = waiting;
  pool = pool_state pool;
}

-- The guard of Run: an application, with a server.
abbrev start_server : App → Option (Server Handler) → Process
start_server app none = record not_initialized { pool = pool_state app.db_pool }
start_server app (some server) = started app.db_pool

unfoldable pub start : Option App → Process
start none = not_initialized
start (some app) = start_server app app.http_server

-- `(*App).Run`
unfoldable pub run : Option App → List Move → Process
unfolding start run_from
run app moves = run_from (start app) moves
