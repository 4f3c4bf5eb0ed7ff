-- ===== src/Exchange/Service/Run.antt =====
-- About internal/exchange/service.go, Authorize: the way that each run takes.
use taifa_exchange.Policy.Service as PolicyService
use taifa_exchange.Exchange.Service.{
  Service, Surroundings, evaluated, settle, decide, policy_service_of, authorize, client_of,
  with_actor, with_capabilities, authorize_by, conclude, lookups,
}
use taifa_exchange.Database.Session.{Pool, Session, continue, Db, pure}
use taifa_exchange.Base.{
  Bool-cases, Option, inl, inr, refl, ◌==◌, ◌≡◌, ap, eq_iff, none, some, sym, ◌∙◌, ne_of_test, [],
}
use taifa_exchange.Exchange.Model.{
  AuthorizeInput, AuthorizeResult, decision_allow, error_code_forbidden,
}
use taifa_exchange.Exchange.Results.{
  allow_result, deny_result, collect_actor_roles, collect_capabilities,
}
use taifa_exchange.Exchange.Service.Course.{
  Answered, Course, HasPool, allowed, broken, concluded, denied, evaluation, full_record,
  no_policy_service, request, IsAsked, actor_answer, actor_record, capabilities_answer,
  correlation_id, first_record, no_actor, no_capabilities, no_client, question, refusal,
  invalid_request,
}
use taifa_exchange.Outcome.{Result, err, ok, wrap}
use taifa_exchange.Policy.Model.{EvaluationResult}
use taifa_exchange.Taifaid.Dto.{ActorContextResponse, CapabilitiesResponse}
use taifa_exchange.Text.{Unicode}
use taifa_exchange.Policy.Service.{service_evaluate, answer}
use taifa_exchange.Policy.Repository.{find_by_route}
use taifa_exchange.Policy.Service.Laws.{
  service_evaluate-ok, service_evaluate_tables, service_evaluate_faults, service_evaluate_total,
}
use taifa_exchange.Taifaid.Client.{is_configured}

module _ ⦃u : Unicode⦄ (env : Surroundings) (service : Option Service)
    (done : AuthorizeResult → Db AuthorizeResult) (input : AuthorizeInput) (s : Session) where
  abbrev Goal : Result AuthorizeResult × Session → Type 0
  Goal = Course env service input done s

  settle-Course :
      (a : ActorContextResponse) (c : CapabilitiesResponse) (pool : Pool)
      → Answered env service input a c
      → HasPool env service input pool
      → (r : Result EvaluationResult) (s₁ : Session) → s₁.tables ≡ s.tables
      → ((e : EvaluationResult) → r ≡ ok e → e ≡ evaluation env service input pool s.tables a c)
      → (s.faults ≡ [] → s₁.faults ≡ [])
      → (s.faults ≡ [] → (e : EvaluationResult) × (r ≡ ok e))
      → Goal (
          continue
            (wrap "evaluate exchange policy" r)
            (settle env service done a.content (full_record env service input a c))
            s₁)
  unfolding settle
  settle-Course a c pool known has (err e) s₁ same v quiet total =
      broken a c known e s₁ same (λ h. cc) (λ h p k. let (x, y) = total h in cc) refl
  settle-Course a c pool known has (ok e) s₁ same v quiet total =
      let full = full_record env service input a c in
      let right : e ≡ evaluation env service input pool s.tables a c = v e refl in
      elim (Bool-cases (e.decision == decision_allow)) [
        | inl yes_allow ↦ rw yes_allow (
            concluded (allow_result (evaluated env service full e) a.content) s₁ same quiet
              (allowed a c pool known has
                (ap (λ (x : EvaluationResult). x.decision) (sym right) ∙ (eq_iff _ _).0 yes_allow)
                (ap
                  (λ (x : EvaluationResult). allow_result (evaluated env service full x) a.content)
                  right))
              refl)
        | inr no_allow ↦ rw no_allow (
            concluded
              (deny_result (evaluated env service full e) 403 error_code_forbidden
                "Exchange policy denied the request.")
              s₁ same quiet
              (denied a c pool known has
                (λ k. ne_of_test _ _ no_allow (ap (λ (x : EvaluationResult). x.decision) right ∙ k))
                (ap
                  (λ (x : EvaluationResult).
                    deny_result (evaluated env service full x) 403 error_code_forbidden
                      "Exchange policy denied the request.")
                  right))
              refl)
      ]

  evaluate_with-Course :
      (a : ActorContextResponse) (c : CapabilitiesResponse)
      → Answered env service input a c
      → (o : Option (Option Pool)) → policy_service_of service ≡ some (record { repository = o })
      → Goal (
          decide env service done
            (some (record { repository = o }))
            (request env service input)
            a.content
            (collect_actor_roles a.content)
            (collect_capabilities c.content)
            (full_record env service input a c)
            s)
  unfolding decide PolicyService.answer PolicyService.service_evaluate find_by_route
  evaluate_with-Course a c known none has = broken a c known _ s refl (λ h. cc) (λ _ _ h. cc) refl
  evaluate_with-Course a c known (some none) has =
      broken a c known _ s refl (λ h. cc) (λ _ _ h. cc) refl
  evaluate_with-Course a c known (some (some pool)) has =
      let q = question env service input a c in
      let x =
        PolicyService.service_evaluate (some (record { repository = some (some pool) })) q s in
      settle-Course a c pool known has x.0 x.1 (service_evaluate_tables pool q s)
        (service_evaluate-ok pool q s) (service_evaluate_faults pool q s)
        (λ h. (_, service_evaluate_total pool q s h))

  decide-Course :
      (a : ActorContextResponse) (c : CapabilitiesResponse)
      → Answered env service input a c
      → (o : Option PolicyService.Service) → policy_service_of service ≡ o
      → Goal (
          decide env service done o
            (request env service input)
            a.content
            (collect_actor_roles a.content)
            (collect_capabilities c.content)
            (full_record env service input a c)
            s)
  decide-Course a c known none e =
      unfold decide in concluded _ s refl (λ h. h) (no_policy_service a c known e refl) refl
  decide-Course a c known (some ps) e = evaluate_with-Course a c known ps.repository e

  with_capabilities-Course :
      (a : ActorContextResponse)
      → IsAsked env service input
      → actor_answer env service input ≡ ok a
      → (r : Result CapabilitiesResponse) → capabilities_answer env service input ≡ r
      → Goal (
          with_capabilities env service done r
            (request env service input)
            a.content
            (collect_actor_roles a.content)
            (actor_record env service input a)
            s)
  unfolding with_capabilities
  with_capabilities-Course a asked actor (err e) h =
      concluded _ s refl (λ h. h) (no_capabilities asked a e actor h refl) refl
  with_capabilities-Course a asked actor (ok c) h =
      decide-Course a c (record { asked = asked; actor = actor; capabilities = h })
        (policy_service_of service) refl

  with_actor-Course :
      IsAsked env service input
      → (r : Result ActorContextResponse) → actor_answer env service input ≡ r
      → Goal (
          with_actor env service done r
            (request env service input)
            (correlation_id env service input)
            (first_record env service input)
            s)
  unfolding with_actor
  with_actor-Course asked (err e) h = concluded _ s refl (λ h. h) (no_actor asked e h refl) refl
  with_actor-Course asked (ok a) h =
      with_capabilities-Course a asked h (capabilities_answer env service input) refl

  -- Every run takes one of the courses.
  authorize_by-Course : Goal (authorize_by env service done input s)
  unfolding authorize_by
  authorize_by-Course = elim (Bool-cases ((refusal env service input).deny_reason == "")) [
    | inr bad ↦
        rw bad (concluded _ s refl (λ h. h) (invalid_request (ne_of_test _ _ bad) refl) refl)
    | inl fine ↦ rw fine (elim (Bool-cases (is_configured (client_of service))) [
      | inr no_one ↦
          rw no_one (concluded _ s refl (λ h. h) (no_client ((eq_iff _ _).0 fine) no_one refl) refl)
      | inl some_one ↦ rw some_one (
          with_actor-Course (record { valid = (eq_iff _ _).0 fine; configured = some_one })
            (actor_answer env service input) refl)
    ])
  ]

module _ ⦃u : Unicode⦄ (env : Surroundings) (service : Option Service) (input : AuthorizeInput)
    (s : Session) where
  pub authorize-Course :
      Course env service input (conclude env service) s (authorize env service input s)
  unfolding authorize
  authorize-Course = authorize_by-Course env service (conclude env service) input s

  pub lookups-Course : Course env service input pure s (lookups env service input s)
  unfolding lookups
  lookups-Course = authorize_by-Course env service pure input s
