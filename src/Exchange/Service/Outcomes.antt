-- ===== src/Exchange/Service/Outcomes.antt =====
-- About internal/exchange/service.go, Authorize: its result and the tables behind it.
use taifa_exchange.Base.{Option, ◌≡◌, ◌⊎◌, ◌∙◌, inl, inr, sym, ap, subst}
use taifa_exchange.Database.Session.{Session}
use taifa_exchange.Database.Tables.{Tables}
use taifa_exchange.Exchange.Model.{AuthorizeInput, AuthorizeResult}
use taifa_exchange.Exchange.Service.{Service, Surroundings, authorize, conclude}
use taifa_exchange.Exchange.Service.Course.{Course, Explained, broken, concluded}
use taifa_exchange.Exchange.Service.Legible.{IsLegible, recorded-IsLegible}
use taifa_exchange.Exchange.Service.Laws.{Recordable, conclude-ok, conclude_atomic, recorded}
use taifa_exchange.Exchange.Service.Run.{authorize-Course}
use taifa_exchange.Outcome.{Result, ok}
use taifa_exchange.Text.{Unicode}

module _ ⦃u : Unicode⦄ (env : Surroundings) (service : Option Service) (input : AuthorizeInput)
    (s : Session) where
  abbrev run : Result AuthorizeResult × Session
  run = authorize env service input s

  -- A result of a run, for the tables `t` that the run leaves.
  pub record Kept (result : AuthorizeResult) (t : Tables) : Type 0 where
    pub explained : Explained env service input s.tables result
    pub rows : t ≡ recorded env result s.tables
    pub fits : Recordable env result s.tables
    pub legible : IsLegible result s.tables t

  of_rows :
      (result : AuthorizeResult) (t : Tables)
      → Explained env service input s.tables result
      → t ≡ recorded env result s.tables
      → Recordable env result s.tables
      → Kept result t
  of_rows result t why rows fits = record {
    explained = why;
    rows = rows;
    fits = fits;
    legible = subst (IsLegible result s.tables) (sym rows) (recorded-IsLegible env result s.tables);
  }

  of_Course-ok :
      (x : Result AuthorizeResult × Session) (r : AuthorizeResult)
      → Course env service input (conclude env service) s x
      → x.0 ≡ ok r
      → Kept r x.1.tables
  of_Course-ok x r (broken a c known e s₁ same _ _ eq) h = cc
  of_Course-ok x r (concluded result s₁ same _ why eq) h =
      let done =
        conclude-ok env service result r s₁
          (ap (λ (y : Result AuthorizeResult × Session). y.0) (sym eq) ∙ h) in
      of_rows r x.1.tables (subst (Explained env service input s.tables) (sym done.0) why)
        (ap (λ (y : Result AuthorizeResult × Session). y.1.tables) eq
          ∙ done.1
          ∙ ap (recorded env result) same
          ∙ ap (λ x. recorded env x s.tables) (sym done.0))
        (subst (λ x. Recordable env x s.tables) (sym done.0)
          (subst (Recordable env result) same done.2))

  -- A result that Authorize returns is explained by the request, the answers of the identity
  -- service and the tables at the start; the tables at the end are those at the start with the rows
  -- of its decision and of its audit event, and these rows meet the constraints of the tables. The
  -- whole record of the decision is read back from its row and, but for its instant, from the
  -- payload of the event, and the event names the decision, the person, the organization, the
  -- correlation identifier and whether the request was allowed.
  pub authorize-ok : (r : AuthorizeResult) → run.0 ≡ ok r → Kept r run.1.tables
  authorize-ok r h = of_Course-ok run r (authorize-Course env service input s) h

  of_Course_atomic :
      (x : Result AuthorizeResult × Session)
      → Course env service input (conclude env service) s x
      → (x.1.tables ≡ s.tables) ⊎ ((r : AuthorizeResult) × Kept r x.1.tables)
  of_Course_atomic x (broken a c known e s₁ same _ _ eq) =
      inl (ap (λ (y : Result AuthorizeResult × Session). y.1.tables) eq ∙ same)
  of_Course_atomic x (concluded result s₁ same _ why eq) =
      let after : x.1.tables ≡ (conclude env service result s₁).1.tables =
        ap (λ (y : Result AuthorizeResult × Session). y.1.tables) eq in
      elim (conclude_atomic env service result s₁) [
        | inl h ↦ inl (after ∙ h ∙ same)
        | inr (rows, fits) ↦ inr (
          result,
          of_rows result x.1.tables why (after ∙ rows ∙ ap (recorded env result) same)
              (subst (Recordable env result) same fits),
        )
      ]

  -- Whatever Authorize returns and whichever calls of the database fail, the tables at the end are
  -- those at the start, or those with the rows of the decision and of the audit event of one
  -- explained result.
  pub authorize_atomic : (run.1.tables ≡ s.tables) ⊎ ((r : AuthorizeResult) × Kept r run.1.tables)
  authorize_atomic = of_Course_atomic run (authorize-Course env service input s)
