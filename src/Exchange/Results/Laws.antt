-- ===== src/Exchange/Results/Laws.antt =====
-- About internal/exchange/service.go, normalizeStringSlice and auditEventForResult.
use taifa_exchange.Base.{
  Bool-cases, List, String, [], inl, inr, refl, ◌≡◌, ◌≢◌, ◌∷◌, ◌++◌, ◌==◌, ◌↔◌, eq_iff, ne_of_test,
  if◌then◌else◌,
}
use taifa_exchange.Audit.Event.{
  event_actor_context_resolve_failed, event_authorization_allowed, event_authorization_denied,
  event_policy_not_found, result_allowed, result_denied,
}
use taifa_exchange.Exchange.Model.{
  AuthorizeResult, DecisionRecord, actor_context_resolve_failed, decision_allow,
}
use taifa_exchange.Exchange.Results.{
  audit_event_for_result, event_type_of, normalize_strings, string_slice_loop,
}
use taifa_exchange.Ids.{Draw}
use taifa_exchange.Policy.Model.{not_found}
use taifa_exchange.Policy.Normalize.{normalize_string_slice, slice_loop}
use taifa_exchange.Text.{Unicode, normal}

module _ ⦃u : Unicode⦄ where
  same_loop :
      (seen out values : List String)
      → string_slice_loop seen out values ≡ slice_loop seen out values
  unfolding string_slice_loop slice_loop
  same_loop seen out [] = refl
  same_loop seen out (v ∷ vs) =
      rw (same_loop seen out vs) rw (same_loop (normal v ∷ seen) (out ++ normal v ∷ []) vs) refl

  -- The normalisation of the exchange package is that of the policy package on every list.
  pub normalize_strings-normalize_string_slice :
      (values : List String) → normalize_strings values ≡ normalize_string_slice values
  unfolding normalize_strings normalize_string_slice
  normalize_strings-normalize_string_slice values = same_loop [] [] values

  -- What the type of an event says of the decision.
  pub data TypeOf (d : DecisionRecord) (type : String) : Type 0 where
    allowed : d.decision ≡ decision_allow → type ≡ event_authorization_allowed → TypeOf d type
    no_actor :
        d.decision ≢ decision_allow
        → d.deny_reason ≡ actor_context_resolve_failed
        → type ≡ event_actor_context_resolve_failed
        → TypeOf d type
    no_policy :
        d.decision ≢ decision_allow
        → d.deny_reason ≡ not_found
        → type ≡ event_policy_not_found
        → TypeOf d type
    denied :
        d.decision ≢ decision_allow
        → d.deny_reason ≢ actor_context_resolve_failed
        → d.deny_reason ≢ not_found
        → type ≡ event_authorization_denied
        → TypeOf d type

  event_type_of-TypeOf : (d : DecisionRecord) → TypeOf d (event_type_of d)
  unfolding event_type_of
  event_type_of-TypeOf d = elim (Bool-cases (d.decision == decision_allow)) [
    | inl a ↦ rw a (allowed ((eq_iff _ _).0 a) refl)
    | inr a ↦ rw a (elim (Bool-cases (d.deny_reason == actor_context_resolve_failed)) [
      | inl b ↦ rw b (no_actor (ne_of_test _ _ a) ((eq_iff _ _).0 b) refl)
      | inr b ↦ rw b (elim (Bool-cases (d.deny_reason == not_found)) [
        | inl c ↦ rw c (no_policy (ne_of_test _ _ a) ((eq_iff _ _).0 c) refl)
        | inr c ↦ rw c (denied (ne_of_test _ _ a) (ne_of_test _ _ b) (ne_of_test _ _ c) refl)
      ])
    ])
  ]

  allowed_iff :
      (d : DecisionRecord) (type : String)
      → TypeOf d type
      → (type ≡ event_authorization_allowed) ↔ (d.decision ≡ decision_allow)
  allowed_iff d type (allowed a e) = (λ _. a, λ _. e)
  allowed_iff d type (no_actor a b e) = (λ k. cc, λ k. absurd (a k))
  allowed_iff d type (no_policy a b e) = (λ k. cc, λ k. absurd (a k))
  allowed_iff d type (denied a b c e) = (λ k. cc, λ k. absurd (a k))

  result_iff :
      (decision : String)
      → ((if decision == decision_allow then result_allowed else result_denied) ≡ result_allowed)
        ↔ (decision ≡ decision_allow)
  result_iff decision = elim (Bool-cases (decision == decision_allow)) [
    | inl a ↦ rw a (λ _. (eq_iff _ _).0 a, λ _. refl)
    | inr a ↦ rw a (λ k. cc, λ k. absurd (ne_of_test _ _ a k))
  ]

  -- The result of the audit event is ALLOWED, and its type is that of an allowed authorization,
  -- exactly if the decision is ALLOW.
  pub audit_event-allow_iff :
      (d : Draw) (r : AuthorizeResult)
      → (((audit_event_for_result d r).result ≡ result_allowed)
          ↔ (r.decision_record.decision ≡ decision_allow))
        × (((audit_event_for_result d r).event_type ≡ event_authorization_allowed)
            ↔ (r.decision_record.decision ≡ decision_allow))
  unfolding audit_event_for_result
  audit_event-allow_iff d r = (
    result_iff r.decision_record.decision,
    allowed_iff r.decision_record _ (event_type_of-TypeOf r.decision_record),
  )
