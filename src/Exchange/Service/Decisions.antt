-- ===== src/Exchange/Service/Decisions.antt =====
-- About internal/exchange/service.go, Authorize: which decision it makes, and what its result says.
use taifa_exchange.Base.{
  Option, ◌≡◌, ◌⊎◌, ◌∙◌, inl, inr, sym, ap, some, ◌↔◌, In, [], none, ◌∷◌, eqb, if◌then◌else◌, refl,
}
use taifa_exchange.Database.Session.{Pool, Session}
use taifa_exchange.Exchange.Model.{
  AuthorizeInput, AuthorizeResult, decision_allow, AuthorizeResponse, decision_deny,
}
use taifa_exchange.Exchange.Service.{Service, Surroundings, authorize}
use taifa_exchange.Exchange.Service.Course.{
  Answered, Explained, HasPool, question, allowed, denied, no_actor, no_capabilities, no_client,
  no_policy_service, invalid_request, refusal,
}
use taifa_exchange.Outcome.{Result, ok}
use taifa_exchange.Policy.Evaluator.Verdict.{Permits}
use taifa_exchange.Policy.Model.{Policy, lookup_input, EvaluationInput}
use taifa_exchange.Policy.Repository.Laws.{stored_policy}
use taifa_exchange.Policy.Service.{evaluation_input}
use taifa_exchange.Taifaid.Dto.{ActorContextResponse, CapabilitiesResponse}
use taifa_exchange.Text.{Unicode}
use taifa_exchange.Exchange.Results.{allow_result, deny_result}
use taifa_exchange.Policy.Evaluator.Verdict.Allow.{evaluate-allow_iff}
use taifa_exchange.Exchange.Request.Laws.{validate_status}
use taifa_exchange.Exchange.Service.Outcomes.{authorize-ok}

module _ ⦃u : Unicode⦄ (env : Surroundings) (service : Option Service) (input : AuthorizeInput)
    (s : Session) where
  abbrev run : Result AuthorizeResult × Session
  run = authorize env service input s

  -- What the evaluator is asked about.
  abbrev pub asked_about : ActorContextResponse → CapabilitiesResponse → Pool → EvaluationInput
  asked_about a c pool =
      let q = question env service input a c in
      evaluation_input (lookup_input q) (stored_policy pool (lookup_input q) s.tables) q

  -- Both answers of the identity service came back, and the policy that the tables hold for the
  -- request permits it with the roles and the capabilities of these answers.
  pub record Granted : Type 0 where
    pub actor : ActorContextResponse
    pub organization : CapabilitiesResponse
    pub answered : Answered env service input actor organization
    pub pool : Pool
    pub has_pool : HasPool env service input pool
    pub policy : Policy
    pub permits : Permits (asked_about actor organization pool) policy

  pub granted_of :
      (r : AuthorizeResult)
      → Explained env service input s.tables r
      → r.decision_record.decision ≡ decision_allow
      → Granted
  unfolding deny_result
  granted_of r (invalid_request v e) h = cc
  granted_of r (no_client v n e) h = cc
  granted_of r (no_actor v x k e) h = cc
  granted_of r (no_capabilities v a x k l e) h = cc
  granted_of r (no_policy_service a c k n e) h = cc
  granted_of r (denied a c pool k has n e) h = cc
  granted_of r (allowed a c pool k has y e) h =
      let (p, permits) = (evaluate-allow_iff (asked_about a c pool)).0 y in
      record {
        actor = a;
        organization = c;
        answered = k;
        pool = pool;
        has_pool = has;
        policy = p;
        permits = permits;
      }

  allow_of :
      (r : AuthorizeResult)
      → Explained env service input s.tables r
      → Granted
      → r.decision_record.decision ≡ decision_allow
  unfolding allow_result
  allow_of r (invalid_request v e) g = absurd (v g.answered.asked.valid)
  allow_of r (no_client v n e) g = let yes = g.answered.asked.configured in cc
  allow_of r (no_actor v x k e) g = let yes = g.answered.actor in cc
  allow_of r (no_capabilities v a x k l e) g = let yes = g.answered.capabilities in cc
  allow_of r (no_policy_service a c k n e) g = let yes = g.has_pool in cc
  allow_of r (denied a c pool k has n e) g =
      let one = g.answered.actor in
      let two = g.answered.capabilities in
      let three = g.has_pool in
      let a1 = k.actor in
      let c1 = k.capabilities in
      let yes =
        (evaluate-allow_iff (asked_about g.actor g.organization g.pool)).1 (g.policy, g.permits) in
      let ea : g.actor ≡ a = cc in
      let ec : g.organization ≡ c = cc in
      let ep : g.pool ≡ pool = cc in absurd (n (rw (← ea) rw (← ec) rw (← ep) yes))
  allow_of r (allowed a c pool k has y e) g = cc

  -- Where Authorize returns a result, its decision is ALLOW exactly if the request is valid, both
  -- answers of the identity service came back, the policy service has a pool, and the policy that
  -- the tables hold for the request permits it with the roles and the capabilities of these
  -- answers.
  pub authorize-allow_iff :
      (r : AuthorizeResult) → run.0 ≡ ok r → (r.decision_record.decision ≡ decision_allow) ↔ Granted
  authorize-allow_iff r h =
      let why = (authorize-ok env service input s r h).explained in
      (granted_of r why, allow_of r why)

  -- A result that lets the request through.
  pub record IsAllow (r : AuthorizeResult) : Type 0 where
    pub decision : r.decision_record.decision ≡ decision_allow
    pub status : r.http_status_code ≡ 200
    pub response : AuthorizeResponse
    pub responded : r.response ≡ some response
    pub same_decision : response.decision ≡ decision_allow
    pub same_id : response.decision_id ≡ r.decision_record.id
    pub matched : response.matched_policy_id ≡ r.decision_record.matched_policy_id

  -- A result that refuses it.
  pub record IsDeny (r : AuthorizeResult) : Type 0 where
    pub decision : r.decision_record.decision ≡ decision_deny
    pub no_response : r.response ≡ none
    pub status : In r.http_status_code (400 ∷ 401 ∷ 403 ∷ 502 ∷ 503 ∷ [])

  shape : (r : AuthorizeResult) → Explained env service input s.tables r → IsAllow r ⊎ IsDeny r
  unfolding deny_result allow_result
  shape r (invalid_request v e) =
      let status : r.http_status_code ≡ (
          if eqb (refusal env service input).status_code 0
          then 403
          else (refusal env service input).status_code) =
        cc in
      inr (record {
        decision = cc;
        no_response = cc;
        status = elim (validate_status _ _ v) [
          | inl h ↦ inr (inl (sym (status ∙ rw h refl)))
          | inr h ↦ inl (sym (status ∙ rw h refl))
        ];
      })
  shape r (no_client v n e) =
      inr (record { decision = cc; no_response = cc; status = inr (inr (inr (inr (inl cc)))) })
  shape r (no_actor v x k e) =
      inr (record { decision = cc; no_response = cc; status = inr (inl cc) })
  shape r (no_capabilities v a x k l e) =
      inr (record { decision = cc; no_response = cc; status = inr (inr (inr (inl cc))) })
  shape r (no_policy_service a c k n e) =
      inr (record { decision = cc; no_response = cc; status = inr (inr (inr (inr (inl cc)))) })
  shape r (denied a c pool k has n e) =
      inr (record { decision = cc; no_response = cc; status = inr (inr (inl cc)) })
  shape r (allowed a c pool k has y e) = inl (record {
    decision = cc;
    status = cc;
    response = _;
    responded = ap (λ (x : AuthorizeResult). x.response) e;
    same_decision = y;
    same_id = cc;
    matched = cc;
  })

  -- A result of Authorize is an ALLOW with the status 200 and a response that repeats the decision,
  -- its identifier and the matched policy, or a DENY without a response and with a status among
  -- 400, 401, 403, 502 and 503.
  pub authorize_shape : (r : AuthorizeResult) → run.0 ≡ ok r → IsAllow r ⊎ IsDeny r
  authorize_shape r h = shape r (authorize-ok env service input s r h).explained
