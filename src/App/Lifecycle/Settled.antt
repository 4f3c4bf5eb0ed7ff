-- ===== src/App/Lifecycle/Settled.antt =====
-- About internal/app/app.go, Run: what it returns, and what it leaves of the pool.
use taifa_exchange.App.Lifecycle.{
  Move, Phase, PoolState, Process, no_pool, pool_closed, pool_open, returned, run_from,
  serve_failed, shut_down, shutting_down, step, stop_serving, waiting, run, start,
}
use taifa_exchange.Base.{All, List, Option, [], ◌∷◌, ◌⊎◌, arith, none, some, In, All-In}
use taifa_exchange.Outcome.{Error}
use taifa_exchange.App.{assemble}
use taifa_exchange.Config.{Config}
use taifa_exchange.Database.Session.{Pool}
use taifa_exchange.Taifaid.Client.{Client}

-- No connection is held any more.
abbrev pub IsReleased : PoolState → Type 0
IsReleased no_pool = Unit
IsReleased pool_open = ⊥
IsReleased pool_closed = Unit

-- The pool is not closed.
abbrev pub IsUsable : PoolState → Type 0
IsUsable no_pool = Unit
IsUsable pool_open = Unit
IsUsable pool_closed = ⊥

module _ (moves : List Move) where
  -- Behind the moves, until Run returns the pool is not closed. If it returned nil, the pool is
  -- released. If it returned an error, this is the error of ListenAndServe and the pool is released,
  -- or it is that of Shutdown.
  abbrev pub Settled : Phase → PoolState → Type 0
  Settled waiting pool = IsUsable pool
  Settled shutting_down pool = IsUsable pool
  Settled (returned none) pool = IsReleased pool
  Settled (returned (some e)) pool =
      (In (stop_serving (serve_failed e)) moves × IsReleased pool)
      ⊎ (In (shut_down (some e)) moves × IsUsable pool)

  -- What stands in the channel came from ListenAndServe.
  abbrev Sent : Option (Option Error) → Type 0
  Sent none = Unit
  Sent (some none) = Unit
  Sent (some (some e)) = In (stop_serving (serve_failed e)) moves

  abbrev Inv : Process → Type 0
  Inv p = Settled p.phase p.pool × Sent p.server_errors

  step-Inv : (p : Process) (m : Move) → In m moves → Inv p → Inv (step p m)
  unfolding step
  step-Inv p m i h = ground arith

  run_from-Inv :
      (p : Process) (ms : List Move) → All (λ m. In m moves) ms → Inv p → Inv (run_from p ms)
  unfolding run_from
  run_from-Inv p [] all h = h
  run_from-Inv p (m ∷ ms) all h = run_from-Inv (step p m) ms all.1 (step-Inv p m all.0 h)

  start-Inv :
      (cfg : Config) (pool : Option Pool) (client : Option Client)
      → Inv (start (some (assemble cfg pool client)))
  unfolding start assemble
  start-Inv cfg none client = (tt, tt)
  start-Inv cfg (some pool) client = (tt, tt)

module _ (cfg : Config) (pool : Option Pool) (client : Option Client) (moves : List Move) where
  abbrev left : Process
  left = run (some (assemble cfg pool client)) moves

  -- However the goroutines are scheduled, Run of an application that New puts together does not
  -- close the pool before it returns. If it returned nil, the pool is closed, where there is one.
  -- If it returned an error, either ListenAndServe returned this error and the pool is closed,
  -- where there is one, or Shutdown returned it and the pool was not closed.
  pub run-Settled : Settled moves left.phase left.pool
  unfolding run
  run-Settled =
      (run_from-Inv moves (start (some (assemble cfg pool client))) moves (All-In moves)
        (start-Inv moves cfg pool client)).0
