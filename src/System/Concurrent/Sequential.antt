-- ===== src/System/Concurrent/Sequential.antt =====
-- About requests that are served at the same time: those that are served one after another are a
-- special case.
use taifa_exchange.Base.{[], ◌≡◌, ap, refl, subst, sym, true, Option}
use taifa_exchange.Database.Session.{Session, continue}
use taifa_exchange.Database.Tables.{Tables}
use taifa_exchange.Exchange.Model.{AuthorizeResult, AuthorizeInput}
use taifa_exchange.Exchange.Service.{authorize, Surroundings, Service, conclude}
use taifa_exchange.Outcome.{Result, err, ok}
use taifa_exchange.System.{Step, Steps, authorizes, creates, here, next, seeds}
use taifa_exchange.System.Concurrent.{
  Moves, Pending, creates_event, idle, looks_up, moving, persists, seeds_policies, still, State,
}
use taifa_exchange.Exchange.Service.{lookups}
use taifa_exchange.Exchange.Service.Lookups.{authorize-lookups, lookups_tables}
use taifa_exchange.Text.{Unicode}

module _ ⦃u : Unicode⦄ where
  join : {x y z : State} → Moves true x y → Moves true y z → Moves true x z
  join xs still = xs
  join xs (moving ys move) = moving (join xs ys) move

  to_idle :
      {t : Tables} (a b : Tables)
      → b ≡ a
      → Moves true (idle t) (idle a)
      → Moves true (idle t) (idle b)
  to_idle {t} a b same moves = subst (λ (c : Tables). Moves true (idle t) (idle c)) (sym same) moves

  -- The moves of a call: its lookups in the session `s`, and what is left in the session `s₁`.
  finishing :
      (env : Surroundings) (service : Option Service) (input : AuthorizeInput) (s s₁ : Session)
      (r : Result AuthorizeResult)
      → (lookups env service input s).0 ≡ r
      → s₁.tables ≡ s.tables
      → Moves true (idle s.tables) (idle (continue r (conclude env service) s₁).1.tables)
  finishing env service input s s₁ (err e) came same = to_idle s.tables s₁.tables same still
  finishing env service input s s₁ (ok result) came same =
      let p : Pending = record { env = env; service = service; input = input; result = result } in
      moving (moving still (looks_up p s refl came)) (persists [] p [] s₁ refl same)

  authorize-Moves :
      (env : Surroundings) (service : Option Service) (input : AuthorizeInput) (s : Session)
      → Moves true (idle s.tables) (idle (authorize env service input s).1.tables)
  authorize-Moves env service input s =
      to_idle _ _
        (ap (λ (y : Result AuthorizeResult × Session). y.1.tables)
          (authorize-lookups env service input s))
        (finishing env service input s (lookups env service input s).1
          (lookups env service input s).0 refl (lookups_tables env service input s))

  Step-Moves : (t t' : Tables) → Step t t' → Moves true (idle t) (idle t')
  Step-Moves t t' (authorizes env service input s same e) =
      to_idle (authorize env service input s).1.tables t' e (
        subst (λ (a : Tables). Moves true (idle a) (idle (authorize env service input s).1.tables))
          same (authorize-Moves env service input s))
  Step-Moves t t' (seeds draws policies seeder s same e) =
      to_idle _ t' e (moving still (seeds_policies draws policies seeder s refl same))
  Step-Moves t t' (creates d repository event s same e) =
      to_idle _ t' e (moving still (creates_event d repository event s same))

  pub Steps-Moves : (t t' : Tables) → Steps t t' → Moves true (idle t) (idle t')
  Steps-Moves t t' here = still
  Steps-Moves t t' (next {a} {b} steps step) = join (Steps-Moves t a steps) (Step-Moves a b step)
