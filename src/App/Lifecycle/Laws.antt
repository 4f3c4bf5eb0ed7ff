-- ===== src/App/Lifecycle/Laws.antt =====
-- About internal/app/app.go, Run: that it returns.
use taifa_exchange.App.Lifecycle.{
  Move, Phase, Process, returned, run_from, shutting_down, step, waiting, cancel, select, shut_down,
  stop_serving, start, run,
}
use taifa_exchange.Base.{
  List, [], ◌∷◌, ◌++◌, ◌≡◌, arith, refl, Bool, Option, false, inr, none, some, true, ◌⊎◌,
}
use taifa_exchange.App.{App}
use taifa_exchange.Outcome.{Error}

pub run_from-append :
    (p : Process) (xs ys : List Move) → run_from p (xs ++ ys) ≡ run_from (run_from p xs) ys
unfolding run_from
run_from-append p [] ys = refl
run_from-append p (x ∷ xs) ys = run_from-append (step p x) xs ys

-- A predicate that every step keeps holds to the end.
pub run_from-keeps {ℓ} :
    (P : Process → Type ℓ)
    → ((p : Process) (m : Move) → P p → P (step p m))
    → (p : Process) (ms : List Move) → P p
    → P (run_from p ms)
unfolding run_from
run_from-keeps P f p [] h = h
run_from-keeps P f p (m ∷ ms) h = run_from-keeps P f (step p m) ms (f p m h)

-- Behind the select statement.
abbrev pub IsPast : Phase → Type 0
IsPast waiting = ⊥
IsPast shutting_down = Unit
IsPast (returned r) = Unit

abbrev pub IsReturned : Phase → Type 0
IsReturned waiting = ⊥
IsReturned shutting_down = ⊥
IsReturned (returned r) = Unit

step-IsReturned : (p : Process) (m : Move) → IsReturned p.phase → IsReturned (step p m).phase
unfolding step
step-IsReturned p m h = ground arith

step-IsPast : (p : Process) (m : Move) → IsPast p.phase → IsPast (step p m).phase
unfolding step
step-IsPast p m h = ground arith

abbrev IsSome : Option (Option Error) → Type 0
IsSome none = ⊥
IsSome (some r) = Unit

-- The select statement has a case that is ready, or is behind.
abbrev IsReady : Process → Type 0
IsReady p = (p.cancelled ≡ true) ⊎ IsSome p.server_errors ⊎ IsPast p.phase

step-IsReady : (p : Process) (m : Move) → IsReady p → IsReady (step p m)
unfolding step
step-IsReady p m h = ground arith

-- A goroutine that no longer serves has sent what it had to send.
abbrev IsHeard : Process → Type 0
IsHeard p = p.serving ≡ false → IsSome p.server_errors ⊎ IsPast p.phase

step-IsHeard : (p : Process) (m : Move) → IsHeard p → IsHeard (step p m)
unfolding step
step-IsHeard p m h = ground arith

-- The moves that end the service: the context ends, or ListenAndServe returns.
abbrev pub IsEnd : Move → Type 0
IsEnd cancel = Unit
IsEnd (stop_serving r) = Unit
IsEnd (select b) = ⊥
IsEnd (shut_down r) = ⊥

IsEnd-IsReady : (p : Process) (m : Move) → IsEnd m → IsHeard p → IsReady (step p m)
unfolding step
IsEnd-IsReady p m e h = ground arith

select-IsPast : (p : Process) (b : Bool) → IsReady p → IsPast (step p (select b)).phase
unfolding step
select-IsPast p b h = ground arith

shut_down-IsReturned :
    (p : Process) (r : Option Error) → IsPast p.phase → IsReturned (step p (shut_down r)).phase
unfolding step
shut_down-IsReturned p r h = ground arith

start-IsHeard : (app : Option App) → IsHeard (start app)
unfolding start
start-IsHeard none h = inr tt
start-IsHeard (some app) h = ground arith

module _ (app : Option App) where
  -- However the goroutines are scheduled: once the context has ended or ListenAndServe has returned,
  -- the select statement has been reached again after that, and Shutdown, if it was called, has
  -- returned after that, Run has returned.
  pub run_returns :
      (xs ys zs ws : List Move) (m : Move) (b : Bool) (r : Option Error)
      → IsEnd m
      → IsReturned (run app (xs ++ (m ∷ ys) ++ (select b ∷ zs) ++ (shut_down r ∷ ws))).phase
  unfolding run
  run_returns xs ys zs ws m b r e =
      let p1 = run_from (start app) xs in
      let p2 = run_from p1 (m ∷ ys) in
      let p3 = run_from p2 (select b ∷ zs) in
      let heard = run_from-keeps IsHeard step-IsHeard (start app) xs (start-IsHeard app) in
      let ready = run_from-keeps IsReady step-IsReady (step p1 m) ys (IsEnd-IsReady p1 m e heard) in
      let past =
        run_from-keeps (λ p. IsPast p.phase) step-IsPast (step p2 (select b)) zs
          (select-IsPast p2 b ready) in
      let done =
        run_from-keeps (λ p. IsReturned p.phase) step-IsReturned (step p3 (shut_down r)) ws
          (shut_down-IsReturned p3 r past) in
      rw (run_from-append, run_from-append, run_from-append) done
