-- ===== src/Exchange/Service/Laws.antt =====
-- About internal/exchange/service.go, persist and what Authorize does before each return.
use taifa_exchange.Base.{Option, ◌≡◌, ◌⊎◌, ◌∙◌, inl, refl, sym, none, some, subst}
use taifa_exchange.Database.Session.{Pool, Session, continue, pure}
use taifa_exchange.Database.Atomic.{wrapping-ok}
use taifa_exchange.Database.Tables.{Tables}
use taifa_exchange.Exchange.Model.{AuthorizeResult}
use taifa_exchange.Exchange.Repository.{create_decision_with_audit}
use taifa_exchange.Exchange.Repository.Laws.{BothFit, both_rows, create-ok, create_atomic}
use taifa_exchange.Exchange.Results.{audit_event_for_result}
use taifa_exchange.Exchange.Service.{
  Service, Surroundings, conclude, persist, persist_in, repository_of,
}
use taifa_exchange.Outcome.{Result, err, ok}
use taifa_exchange.Text.{Unicode}

module _ ⦃u : Unicode⦄ (env : Surroundings) where
  -- The tables with the decision of a result and its audit event.
  abbrev pub recorded : AuthorizeResult → Tables → Tables
  recorded result =
      both_rows env.insert_draw result.decision_record
        (audit_event_for_result env.event_draw result)

  -- The constraints that the two rows meet.
  abbrev pub Recordable : AuthorizeResult → Tables → Type 0
  Recordable result =
      BothFit env.insert_draw result.decision_record (audit_event_for_result env.event_draw result)

  module _ (service : Option Service) where
    persist_in-ok :
        (o : Option (Option Pool)) (result : AuthorizeResult) (s : Session)
        → (persist_in env service o result s).0 ≡ ok tt
        → ((persist_in env service o result s).1.tables ≡ recorded result s.tables)
          × Recordable result s.tables
    unfolding persist_in
    persist_in-ok none result s h = cc
    persist_in-ok (some o) result s h =
        let event = audit_event_for_result env.event_draw result in
        create-ok env.insert_draw result.decision_record event (some o) s (
          wrapping-ok "persist exchange authorization decision"
            (create_decision_with_audit env.insert_draw (some o) result.decision_record event) s tt
            h)

    persist_in_atomic :
        (o : Option (Option Pool)) (result : AuthorizeResult) (s : Session)
        → ((persist_in env service o result s).1.tables ≡ s.tables)
          ⊎ (((persist_in env service o result s).1.tables ≡ recorded result s.tables)
              × Recordable result s.tables)
    unfolding persist_in
    persist_in_atomic none result s = inl refl
    persist_in_atomic (some o) result s =
        create_atomic env.insert_draw result.decision_record
          (audit_event_for_result env.event_draw result) (some o) s

    -- Returning a result behind a step.
    pub returning-ok :
        (x : Result (Unit {0})) (result r : AuthorizeResult) (s : Session)
        → (continue x (λ _. pure result) s).0 ≡ ok r
        → (r ≡ result) × (x ≡ ok tt)
    returning-ok (ok _) result r s h = (cc, refl)
    returning-ok (err e) result r s h = cc

    returning_tables :
        (x : Result (Unit {0})) (result : AuthorizeResult) (s : Session)
        → (continue x (λ _. pure result) s).1.tables ≡ s.tables
    returning_tables (ok _) result s = refl
    returning_tables (err e) result s = refl

    pub conclude-ok :
        (result r : AuthorizeResult) (s : Session)
        → (conclude env service result s).0 ≡ ok r
        → (r ≡ result)
          × ((conclude env service result s).1.tables ≡ recorded result s.tables)
          × Recordable result s.tables
    unfolding conclude persist
    conclude-ok result r s h =
        let x = persist_in env service (repository_of service) result s in
        let (same, stored) = returning-ok x.0 result r x.1 h in
        let kept = persist_in-ok (repository_of service) result s stored in
        (same, returning_tables x.0 result x.1 ∙ kept.0, kept.1)

    pub conclude_atomic :
        (result : AuthorizeResult) (s : Session)
        → ((conclude env service result s).1.tables ≡ s.tables)
          ⊎ (((conclude env service result s).1.tables ≡ recorded result s.tables)
              × Recordable result s.tables)
    unfolding conclude persist
    conclude_atomic result s =
        let x = persist_in env service (repository_of service) result s in
        subst (λ t. (t ≡ s.tables) ⊎ ((t ≡ recorded result s.tables) × Recordable result s.tables))
          (sym (returning_tables x.0 result x.1))
          (persist_in_atomic (repository_of service) result s)
