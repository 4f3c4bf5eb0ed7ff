-- ===== src/Command/Serve/Laws.antt =====
-- About cmd/taifa-exchange/main.go: that it exits, and what its exit status says.
use taifa_exchange.App.{App, assemble, new_app, open_client, open_database}
use taifa_exchange.App.Lifecycle.{
  Move, Phase, returned, run, select, serve_failed, shut_down, shutting_down, stop_serving, waiting,
}
use taifa_exchange.App.Lifecycle.Laws.{IsEnd, IsReturned, run_returns}
use taifa_exchange.App.Lifecycle.Settled.{IsReleased, Settled, run-Settled}
use taifa_exchange.Base.{
  Bool, List, Option, ◌∷◌, ◌++◌, ◌≡◌, ◌⊎◌, In, inl, inr, none, some, suc, zero, subst, sym, arith,
}
use taifa_exchange.Command.Serve.{Exit, exit_of, exited, run_application, serve_main, still_running}
use taifa_exchange.Config.{Config, Getenv, load}
use taifa_exchange.Database.Driver.{Driver}
use taifa_exchange.Database.Session.{Pool}
use taifa_exchange.Outcome.{Error, Result, Result-cases, err, ok, bind-ok}

ok-injective {ℓ} : {A : Type ℓ} {a b : A} → (let r : Result A = ok a in r) ≡ ok b → a ≡ b
ok-injective h = cc

firsts : {A B C D : Type 0} → (A × C) ⊎ (B × D) → A ⊎ B
firsts (inl h) = inl h.0
firsts (inr h) = inr h.0

abbrev pub IsExited : Exit → Type 0
IsExited still_running = ⊥
IsExited (exited n) = Unit

exit_of-IsExited : (p : Phase) → IsReturned p → IsExited (exit_of p)
exit_of-IsExited p h = ground arith

module _ (driver : Driver) (getenv : Getenv) where
  -- Whatever the environment holds and however the goroutines are scheduled: once a signal has
  -- arrived or ListenAndServe has returned, the select statement has been reached again after that,
  -- and Shutdown, if it was called, has returned after that, the process has exited.
  pub serve_main_exits :
      (xs ys zs ws : List Move) (m : Move) (b : Bool) (r : Option Error)
      → IsEnd m
      → IsExited
          (serve_main driver getenv (xs ++ (m ∷ ys) ++ (select b ∷ zs) ++ (shut_down r ∷ ws)))
  unfolding serve_main
  serve_main_exits xs ys zs ws m b r e = elim (Result-cases (new_app driver (load getenv))) [
    | inl (x, h) ↦ rw h tt
    | inr (app, h) ↦ rw h (exit_of-IsExited _ (run_returns (some app) xs ys zs ws m b r e))
  ]

  -- What an exit status says: New returned an application and its pool is released; or New failed,
  -- or ListenAndServe did, or Shutdown.
  abbrev pub Accounted : List Move → Exit → Type 0
  Accounted moves still_running = Unit
  Accounted moves (exited zero) =
      (app : App) × (new_app driver (load getenv) ≡ ok app) × IsReleased (run (some app) moves).pool
  Accounted moves (exited (suc n)) =
      ((e : Error) × (new_app driver (load getenv) ≡ err e))
      ⊎ ((e : Error) × (In (stop_serving (serve_failed e)) moves ⊎ In (shut_down (some e)) moves))

  exit_of-Accounted :
      (app : App) (moves : List Move) (p : Phase)
      → new_app driver (load getenv) ≡ ok app
      → Settled moves p (run (some app) moves).pool
      → Accounted moves (exit_of p)
  exit_of-Accounted app moves waiting h k = tt
  exit_of-Accounted app moves shutting_down h k = tt
  exit_of-Accounted app moves (returned none) h k = (app, h, k)
  exit_of-Accounted app moves (returned (some e)) h k = inr (e, firsts k)

  new_app-ok :
      (cfg : Config) (app : App)
      → new_app driver cfg ≡ ok app
      → (pool : Option Pool) × (app ≡ assemble cfg pool (open_client cfg))
  unfolding new_app
  new_app-ok cfg app h =
      let (pool, opened, same) = bind-ok (open_database driver cfg) _ app h in
      (pool, sym (ok-injective same))

  -- The process exits with 0 only if New returned an application and its pool, where it has one, is
  -- closed, and with another status only if New failed, or ListenAndServe or Shutdown returned an
  -- error.
  pub serve_main-Accounted : (moves : List Move) → Accounted moves (serve_main driver getenv moves)
  unfolding serve_main
  serve_main-Accounted moves = elim (Result-cases (new_app driver (load getenv))) [
    | inl (x, h) ↦
        subst (λ (r : Result App). Accounted moves (run_application moves r)) (sym h) (inl (x, h))
    | inr (app, h) ↦
        let (pool, same) = new_app-ok (load getenv) app h in
        let settled =
          subst (λ (a : App). Settled moves (run (some a) moves).phase (run (some a) moves).pool)
            (sym same) (run-Settled (load getenv) pool (open_client (load getenv)) moves) in
        subst (λ (r : Result App). Accounted moves (run_application moves r)) (sym h)
          (exit_of-Accounted app moves (run (some app) moves).phase h settled)
  ]
