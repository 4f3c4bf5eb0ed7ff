-- ===== src/Exchange/Service/Unrecorded.antt =====
-- About internal/exchange/service.go, Authorize without a database.
use taifa_exchange.Base.{Option, none, some, ◌≢◌, ◌∙◌, ap, refl, sym}
use taifa_exchange.Database.Session.{Pool, Session}
use taifa_exchange.Exchange.Model.{AuthorizeInput, AuthorizeResult}
use taifa_exchange.Exchange.Repository.{create_decision_with_audit}
use taifa_exchange.Exchange.Service.{
  Service, Surroundings, authorize, conclude, persist, persist_in, repository_of,
}
use taifa_exchange.Exchange.Service.Course.{Course, broken, concluded}
use taifa_exchange.Exchange.Service.Laws.{returning-ok}
use taifa_exchange.Exchange.Service.Run.{authorize-Course}
use taifa_exchange.Outcome.{Result, ok}
use taifa_exchange.Text.{Unicode}

module _ ⦃u : Unicode⦄ (env : Surroundings) (service : Option Service) (input : AuthorizeInput)
    (s : Session) where
  persist_in_unrecorded :
      (o : Option (Option Pool)) (result : AuthorizeResult) (s₁ : Session)
      → ((pool : Pool) → o ≢ some (some pool))
      → (persist_in env service o result s₁).0 ≢ ok tt
  unfolding persist_in create_decision_with_audit
  persist_in_unrecorded none result s₁ n h = cc
  persist_in_unrecorded (some none) result s₁ n h = cc
  persist_in_unrecorded (some (some pool)) result s₁ n h = n pool refl

  Course-unrecorded :
      (x : Result AuthorizeResult × Session) (r : AuthorizeResult)
      → ((pool : Pool) → repository_of service ≢ some (some pool))
      → Course env service input (conclude env service) s x
      → x.0 ≢ ok r
  unfolding conclude persist
  Course-unrecorded x r n (broken a c known e s₁ same there why eq) h = cc
  Course-unrecorded x r n (concluded result s₁ same quiet why eq) h =
      let stored =
        returning-ok env service _ result r _
          (ap (λ (y : Result AuthorizeResult × Session). y.0) (sym eq) ∙ h) in
      persist_in_unrecorded (repository_of service) result s₁ n stored.1

  -- Where the repository is missing or has no pool, Authorize returns no result: no decision leaves
  -- it without a record.
  pub authorize_unrecorded :
      ((pool : Pool) → repository_of service ≢ some (some pool))
      → (r : AuthorizeResult) → (authorize env service input s).0 ≢ ok r
  authorize_unrecorded n r h =
      Course-unrecorded (authorize env service input s) r n (authorize-Course env service input s) h
