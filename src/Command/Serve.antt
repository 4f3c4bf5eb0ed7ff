-- ===== src/Command/Serve.antt =====
-- cmd/taifa-exchange/main.go. The signals and the scheduling are the moves of Run.
pub mod Laws
use taifa_exchange.App.{App, new_app}
use taifa_exchange.App.Lifecycle.{Move, Phase, returned, run, shutting_down, waiting}
use taifa_exchange.Base.{List, none, some, ℕ}
use taifa_exchange.Config.{Getenv, load}
use taifa_exchange.Database.Driver.{Driver}
use taifa_exchange.Outcome.{Result, err, ok}

-- The process runs, or has ended with an exit status.
pub data Exit : Type 0 where
  still_running : Exit
  exited : ℕ → Exit

abbrev pub exit_of : Phase → Exit
exit_of waiting = still_running
exit_of shutting_down = still_running
exit_of (returned none) = exited 0
exit_of (returned (some e)) = exited 1

abbrev pub run_application : List Move → Result App → Exit
run_application moves (err e) = exited 1
run_application moves (ok app) = exit_of (run (some app) moves).phase

-- `main`
unfoldable pub serve_main : Driver → Getenv → List Move → Exit
serve_main driver getenv moves = run_application moves (new_app driver (load getenv))
