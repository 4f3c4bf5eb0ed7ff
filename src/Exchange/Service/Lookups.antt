-- ===== src/Exchange/Service/Lookups.antt =====
-- About internal/exchange/service.go, Authorize: the lookups, and what is left behind them.
use taifa_exchange.Base.{
  Bool-cases, Option, inl, inr, none, refl, some, ◌==◌, ◌≡◌, ◌∙◌, ap, subst, List, String, sym,
}
use taifa_exchange.Database.Session.{Db, Session, continue, pure, wrapping}
use taifa_exchange.Exchange.Model.{
  AuthorizeInput, AuthorizeRequest, AuthorizeResult, DecisionRecord, decision_allow,
}
use taifa_exchange.Exchange.Request.{
  normalize_authorize_request, validate_request_for_authorization,
}
use taifa_exchange.Exchange.Service.{
  Service, Surroundings, authorize, authorize_by, authorization_input, client_of, conclude, decide,
  lookups, policy_service_of, settle, with_actor, with_capabilities,
}
use taifa_exchange.Exchange.Service.Course.{Course, Explained, broken, concluded}
use taifa_exchange.Exchange.Service.Laws.{conclude-ok}
use taifa_exchange.Exchange.Service.Run.{lookups-Course}
use taifa_exchange.Outcome.{Result, err, ok}
use taifa_exchange.Policy.Model.{EvaluationResult}
use taifa_exchange.Policy.Service as PolicyService
use taifa_exchange.Taifaid.Client.{is_configured}
use taifa_exchange.Taifaid.Dto.{ActorContext, ActorContextResponse, CapabilitiesResponse}
use taifa_exchange.Text.{Unicode, trim_space}
use taifa_exchange.Policy.Service.{service_evaluate}

module _ ⦃u : Unicode⦄ (env : Surroundings) (service : Option Service)
    (done : AuthorizeResult → Db AuthorizeResult) where
  -- A run that ends by `done` is one that ends with the result, and then `done`.
  abbrev Splits : Db AuthorizeResult → Db AuthorizeResult → Session → Type 0
  Splits run looked s = run s ≡ continue (looked s).0 done (looked s).1

  settle-Splits :
      (actor : ActorContext) (d : DecisionRecord) (e : EvaluationResult) (s : Session)
      → Splits (settle env service done actor d e) (settle env service pure actor d e) s
  unfolding settle
  settle-Splits actor d e s = elim (Bool-cases (e.decision == decision_allow)) [
    | inl yes_allow ↦ rw yes_allow refl
    | inr no_allow ↦ rw no_allow refl
  ]

  evaluated-Splits :
      (actor : ActorContext) (d : DecisionRecord) (r : Result EvaluationResult) (s : Session)
      → continue r (settle env service done actor d) s
        ≡ continue
            (continue r (settle env service pure actor d) s).0
            done
            (continue r (settle env service pure actor d) s).1
  evaluated-Splits actor d (ok e) s = settle-Splits actor d e s
  evaluated-Splits actor d (err e) s = refl

  decide-Splits :
      (o : Option PolicyService.Service) (q : AuthorizeRequest) (actor : ActorContext)
      (roles capabilities : List String) (d : DecisionRecord) (s : Session)
      → Splits
          (decide env service done o q actor roles capabilities d)
          (decide env service pure o q actor roles capabilities d)
          s
  unfolding decide
  decide-Splits none q actor roles capabilities d s = refl
  decide-Splits (some ps) q actor roles capabilities d s =
      let x =
        wrapping "evaluate exchange policy"
          (PolicyService.service_evaluate (some ps)
            (authorization_input env service q roles capabilities))
          s in
      evaluated-Splits actor d x.0 x.1

  with_capabilities-Splits :
      (c : Result CapabilitiesResponse) (q : AuthorizeRequest) (actor : ActorContext)
      (roles : List String) (d : DecisionRecord) (s : Session)
      → Splits
          (with_capabilities env service done c q actor roles d)
          (with_capabilities env service pure c q actor roles d)
          s
  unfolding with_capabilities
  with_capabilities-Splits (err e) q actor roles d s = refl
  with_capabilities-Splits (ok c) q actor roles d s =
      decide-Splits (policy_service_of service) q actor roles _ _ s

  with_actor-Splits :
      (a : Result ActorContextResponse) (q : AuthorizeRequest) (id : String) (d : DecisionRecord)
      (s : Session)
      → Splits (with_actor env service done a q id d) (with_actor env service pure a q id d) s
  unfolding with_actor
  with_actor-Splits (err e) q id d s = refl
  with_actor-Splits (ok a) q id d s = with_capabilities-Splits _ q _ _ _ s

  authorize_by-Splits :
      (input : AuthorizeInput) (s : Session)
      → Splits (authorize_by env service done input) (authorize_by env service pure input) s
  unfolding authorize_by
  authorize_by-Splits input s =
      let request = normalize_authorize_request input.request in
      let refusal = validate_request_for_authorization request (trim_space input.token) in
      elim (Bool-cases (refusal.deny_reason == "")) [
        | inr bad ↦ rw bad refl
        | inl fine ↦ rw fine (elim (Bool-cases (is_configured (client_of service))) [
          | inr no_one ↦ rw no_one refl
          | inl some_one ↦ rw some_one (with_actor-Splits _ request _ _ s)
        ])
      ]

module _ ⦃u : Unicode⦄ (env : Surroundings) (service : Option Service) (input : AuthorizeInput)
    (s : Session) where
  -- Authorize is its lookups, and then, for the result that they give, persist and the return.
  pub authorize-lookups :
      authorize env service input s
      ≡ continue
          (lookups env service input s).0
          (conclude env service)
          (lookups env service input s).1
  unfolding authorize lookups
  authorize-lookups = authorize_by-Splits env service (conclude env service) input s

  lookups_of_Course :
      (x : Result AuthorizeResult × Session)
      → Course env service input pure s x
      → (x.1.tables ≡ s.tables)
        × ((r : AuthorizeResult) → x.0 ≡ ok r → Explained env service input s.tables r)
  lookups_of_Course x (broken a c known e s₁ same _ _ eq) =
      (ap (λ (y : Result AuthorizeResult × Session). y.1.tables) eq ∙ same, λ r h. cc)
  lookups_of_Course x (concluded result s₁ same _ why eq) = (
    ap (λ (y : Result AuthorizeResult × Session). y.1.tables) eq ∙ same,
    λ r h.
        let is_result : result ≡ r = cc in
        subst (Explained env service input s.tables) is_result why,
  )

  -- The lookups change no table, and a result that they give is explained by the tables.
  pub lookups_tables : (lookups env service input s).1.tables ≡ s.tables
  lookups_tables = (lookups_of_Course _ (lookups-Course env service input s)).0

  pub lookups-Explained :
      (r : AuthorizeResult)
      → (lookups env service input s).0 ≡ ok r
      → Explained env service input s.tables r
  lookups-Explained = (lookups_of_Course _ (lookups-Course env service input s)).1

  came_from :
      (x : Result AuthorizeResult) (s₁ : Session) (r : AuthorizeResult)
      → (continue x (conclude env service) s₁).0 ≡ ok r
      → x ≡ ok r
  came_from (err e) s₁ r h = cc
  came_from (ok result) s₁ r h = ap ok (sym (conclude-ok env service result r s₁ h).0)

  -- A result that Authorize returns is the one that the lookups gave.
  pub lookups-authorize :
      (r : AuthorizeResult)
      → (authorize env service input s).0 ≡ ok r
      → (lookups env service input s).0 ≡ ok r
  lookups-authorize r h =
      came_from (lookups env service input s).0 (lookups env service input s).1 r
        (ap (λ (y : Result AuthorizeResult × Session). y.0) (sym authorize-lookups) ∙ h)
