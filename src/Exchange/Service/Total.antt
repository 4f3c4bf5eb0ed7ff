-- ===== src/Exchange/Service/Total.antt =====
-- About internal/exchange/service.go, Authorize: when it comes to a result.
use taifa_exchange.Base.{
  Option, String, [], arith, false, inl, inr, none, refl, some, true, ◌≡◌, ◌⊎◌, ◌∷◌, ap, sym, ◌∙◌,
  contains, subst, Bool, List, if◌then◌else◌, ◌==◌, ◌||◌,
}
use taifa_exchange.Database.Session.{Pool, Session, continue, pure}
use taifa_exchange.Database.Statements.{decision_exists, outbox_exists, reference_ok}
use taifa_exchange.Database.Tables.{decision_row_ok, methods, target_systems}
use taifa_exchange.Exchange.Model.{
  AuthorizeInput, AuthorizeResult, DecisionRecord, decision_allow, normalize_method_for_decision,
  normalize_target_system_for_decision, decision_deny,
}
use taifa_exchange.Exchange.Repository.{decision_row}
use taifa_exchange.Exchange.Repository.Laws.{create_total}
use taifa_exchange.Exchange.Results.{allow_result, deny_result, audit_event_for_result}
use taifa_exchange.Exchange.Service.{
  Service, Surroundings, authorize, conclude, initial_decision, persist, persist_in, repository_of,
  policy_service_of,
}
use taifa_exchange.Ids.{new_audit_event_id, new_decision_id}
use taifa_exchange.Text.{Unicode, normal}
use taifa_exchange.Exchange.Service.Course.{
  Explained, allowed, denied, invalid_request, no_actor, no_capabilities, no_client,
  no_policy_service, first_record, question, Course, HasPool, broken, concluded,
}
use taifa_exchange.Audit.Outbox.{null_if_empty, outbox_row}
use taifa_exchange.Policy.Service.Reference.{expected-reference_ok}
use taifa_exchange.Audit.Event.{with_defaults}
use taifa_exchange.Exchange.Service.Laws.{Recordable}
use taifa_exchange.Outcome.{Result, err, ok}
use taifa_exchange.Exchange.Service.Run.{authorize-Course}
use taifa_exchange.Ids.Laws.{event_id_not_empty}

or_true : (b : Bool) → (b || true) ≡ true
or_true b = ground arith

module _ ⦃u : Unicode⦄ where
  contains_or_unknown :
      (xs : List String) (y : String) (b : Bool)
      → contains xs y ≡ b
      → contains ("UNKNOWN" ∷ xs) (if b then y else "UNKNOWN") ≡ true
  unfolding contains
  contains_or_unknown xs y true h = rw h (or_true ("UNKNOWN" == y))
  contains_or_unknown xs y false h = refl

  known_or_unknown :
      (x : String)
      → contains ("UNKNOWN" ∷ target_systems) (normalize_target_system_for_decision x) ≡ true
  unfolding normalize_target_system_for_decision
  known_or_unknown x = contains_or_unknown target_systems (normal x) _ refl

  known_or_unknown_method :
      (x : String) → contains ("UNKNOWN" ∷ methods) (normalize_method_for_decision x) ≡ true
  unfolding normalize_method_for_decision
  known_or_unknown_method x = contains_or_unknown methods (normal x) _ refl

  module _ (env : Surroundings) (service : Option Service) (input : AuthorizeInput)
      (s : Session) where
    row_ok :
        (d : DecisionRecord)
        → (d.decision ≡ decision_allow) ⊎ (d.decision ≡ decision_deny)
        → d.target_system ≡ (first_record env service input).target_system
        → d.method ≡ (first_record env service input).method
        → decision_row_ok (decision_row d) ≡ true
    unfolding decision_row_ok decision_row initial_decision contains
    row_ok d decided target method =
        rw target rw method rw (known_or_unknown _) rw (known_or_unknown_method _)
          (elim decided [ inl e ↦ rw e refl | inr e ↦ rw e refl ])

    -- The CHECK constraints hold for every result.
    pub Explained-checks :
        (r : AuthorizeResult)
        → Explained env service input s.tables r
        → decision_row_ok (decision_row r.decision_record) ≡ true
    unfolding deny_result allow_result
    Explained-checks r (invalid_request v e) = rw e (row_ok _ (inr refl) refl refl)
    Explained-checks r (no_client v n e) = rw e (row_ok _ (inr refl) refl refl)
    Explained-checks r (no_actor v x k e) = rw e (row_ok _ (inr refl) refl refl)
    Explained-checks r (no_capabilities v a x k l e) = rw e (row_ok _ (inr refl) refl refl)
    Explained-checks r (no_policy_service a c k n e) = rw e (row_ok _ (inr refl) refl refl)
    Explained-checks r (denied a c pool k has n e) = rw e (row_ok _ (inr refl) refl refl)
    Explained-checks r (allowed a c pool k has y e) = rw e (row_ok _ (inl y) refl refl)

    -- The decision names no policy, or one of the tables.
    pub Explained-reference :
        (r : AuthorizeResult)
        → Explained env service input s.tables r
        → reference_ok (decision_row r.decision_record).matched_policy_id s.tables.policies ≡ true
    unfolding deny_result allow_result decision_row initial_decision null_if_empty
    Explained-reference r (invalid_request v e) = rw e refl
    Explained-reference r (no_client v n e) = rw e refl
    Explained-reference r (no_actor v x k e) = rw e refl
    Explained-reference r (no_capabilities v a x k l e) = rw e refl
    Explained-reference r (no_policy_service a c k n e) = rw e refl
    Explained-reference r (denied a c pool k has n e) =
        rw e (expected-reference_ok pool (question env service input a c) s.tables)
    Explained-reference r (allowed a c pool k has y e) =
        rw e (expected-reference_ok pool (question env service input a c) s.tables)

    pub Explained-id :
        (r : AuthorizeResult)
        → Explained env service input s.tables r
        → r.decision_record.id ≡ new_decision_id env.decision_draw
    unfolding deny_result allow_result initial_decision
    Explained-id r (invalid_request v e) = rw e refl
    Explained-id r (no_client v n e) = rw e refl
    Explained-id r (no_actor v x k e) = rw e refl
    Explained-id r (no_capabilities v a x k l e) = rw e refl
    Explained-id r (no_policy_service a c k n e) = rw e refl
    Explained-id r (denied a c pool k has n e) = rw e refl
    Explained-id r (allowed a c pool k has y e) = rw e refl

    -- What a run needs to come to a result: no call of the database fails, the repository has a
    -- pool, the policy service has one or is missing, and the identifiers are new.
    pub record IsSound : Type 0 where
      pub quiet : s.faults ≡ []
      pub pool : Pool
      pub has_repository : repository_of service ≡ some (some pool)
      pub policies : (policy_service_of service ≡ none) ⊎ ((p : Pool) × HasPool env service input p)
      pub new_decision :
          decision_exists (new_decision_id env.decision_draw) s.tables.decisions ≡ false
      pub new_event : outbox_exists (new_audit_event_id env.event_draw) s.tables.outbox ≡ false

    pub event_id :
        (r : AuthorizeResult)
        → (with_defaults env.insert_draw (audit_event_for_result env.event_draw r)).id
          ≡ new_audit_event_id env.event_draw
    unfolding with_defaults audit_event_for_result
    event_id r = rw (event_id_not_empty env.event_draw) refl

    recordable :
        (r : AuthorizeResult)
        → IsSound
        → Explained env service input s.tables r
        → Recordable env r s.tables
    unfolding decision_row outbox_row
    recordable r sound why = record {
      checks = Explained-checks r why;
      new_decision = rw (Explained-id r why) sound.new_decision;
      known_policy = Explained-reference r why;
      new_event = rw (event_id r) sound.new_event;
    }

    persist_in_total :
        (o : Option (Option Pool)) (pool : Pool) (r : AuthorizeResult) (s₁ : Session)
        → o ≡ some (some pool)
        → s₁.faults ≡ []
        → Recordable env r s₁.tables
        → (persist_in env service o r s₁).0 ≡ ok tt
    unfolding persist_in
    persist_in_total none pool r s₁ h q fits = cc
    persist_in_total (some none) pool r s₁ h q fits = cc
    persist_in_total (some (some p)) pool r s₁ h q fits =
        let done =
          create_total env.insert_draw r.decision_record (audit_event_for_result env.event_draw r) p
            s₁ q fits in
        rw done refl

    returning_total :
        (x : Result (Unit {0})) (r : AuthorizeResult) (s₁ : Session)
        → x ≡ ok tt
        → (continue x (λ _. pure r) s₁).0 ≡ ok r
    returning_total (ok _) r s₁ h = refl
    returning_total (err e) r s₁ h = cc

    -- Concluding a result whose rows fit returns it, where no call fails.
    pub conclude_total :
        (pool : Pool) (r : AuthorizeResult) (s₁ : Session)
        → repository_of service ≡ some (some pool)
        → s₁.faults ≡ []
        → Recordable env r s₁.tables
        → (conclude env service r s₁).0 ≡ ok r
    unfolding conclude persist
    conclude_total pool r s₁ has quiet fits =
        returning_total _ r _ (persist_in_total _ pool r s₁ has quiet fits)

    of_Course_total :
        (x : Result AuthorizeResult × Session)
        → IsSound
        → Course env service input (conclude env service) s x
        → (r : AuthorizeResult) × (x.0 ≡ ok r)
    of_Course_total x sound (broken a c known e s₁ same there why eq) = elim sound.policies [
      | inl none_there ↦ absurd (there none_there)
      | inr (p, has) ↦ absurd (why sound.quiet p has)
    ]
    of_Course_total x sound (concluded r s₁ same quiet why eq) = (
      r,
      ap (λ (y : Result AuthorizeResult × Session). y.0) eq
          ∙ conclude_total sound.pool r s₁ sound.has_repository (quiet sound.quiet)
              (subst (Recordable env r) (sym same) (recordable r sound why)),
    )

    -- Authorize returns a result where no call of the database fails, the repository has a pool,
    -- the policy service is nil or has a pool, and the identifiers of the decision and of its event
    -- are not yet in the tables; no other constraint of the tables can refuse its rows.
    pub authorize_total :
        IsSound → (r : AuthorizeResult) × ((authorize env service input s).0 ≡ ok r)
    authorize_total sound =
        of_Course_total (authorize env service input s) sound (authorize-Course env service input s)
