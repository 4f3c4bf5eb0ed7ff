-- ===== src/Policy/Evaluator/Verdict/Proof.antt =====
-- About internal/policy/evaluator.go, Evaluate, and its specification.
use taifa_exchange.Base.{
  Bool, Bool-cases, List, String, [], arith, eq_iff, false, inl, inr, is_nil, not, refl, some, true,
  ◌&&◌, ◌==◌, ◌≡◌, Option, none, ne_of_test,
}
use taifa_exchange.Policy.Evaluator.{
  apply_policy, check_requirements, has_any_required_role, missing_required_capabilities, deny,
  evaluate, initial_result,
}
use taifa_exchange.Policy.Evaluator.Requirements.{
  AllHeld-normalize, AnyHeld-normalize, has_any_required_role_iff, no_requirement_iff,
  none_missing_iff,
}
use taifa_exchange.Policy.Evaluator.Verdict.{
  CapabilitiesMet, RoleMet, IsComplete, Verdict, disabled, no_role, denied, no_capability,
  unsupported, permitted, no_policy, no_target_system, no_method, no_route, no_operation,
}
use taifa_exchange.Policy.Model.{
  EvaluationInput, EvaluationResult, Policy, decision_deny, effect_allow, effect_deny,
  status_active, not_found,
}
use taifa_exchange.Policy.Normalize.{normalize_string_slice}
use taifa_exchange.Text.{Unicode, normal, trim_space}

module _ ⦃u : Unicode⦄ where
  -- The tests of check_requirements, on the normalised lists.
  unfoldable pub role_test : EvaluationInput → Policy → Bool
  role_test i p =
      let roles = normalize_string_slice p.required_roles in
      not (is_nil roles) && not (has_any_required_role (normalize_string_slice i.actor_roles) roles)

  unfoldable pub capability_test : EvaluationInput → Policy → Bool
  capability_test i p = not (
      is_nil (
        missing_required_capabilities (normalize_string_slice i.organization_capabilities)
          (normalize_string_slice p.required_capabilities)))

  nil_of_is_nil : (xs : List String) → xs ≡ [] → is_nil xs ≡ true
  nil_of_is_nil xs h = rw h

  pub role_test-false : (i : EvaluationInput) (p : Policy) → role_test i p ≡ false → RoleMet i p
  unfolding role_test
  role_test-false i p h = elim (Bool-cases (is_nil (normalize_string_slice p.required_roles))) [
    | inl e ↦ inl ((no_requirement_iff p.required_roles).0 e)
    | inr e ↦
        elim ((has_any_required_role_iff (normalize_string_slice i.actor_roles)
            (normalize_string_slice p.required_roles)).0
          (ground arith)) [
            | inl k ↦ cc (nil_of_is_nil _ k)
            | inr k ↦ inr ((AnyHeld-normalize i.actor_roles p.required_roles).0 k)
          ]
  ]

  pub role_test-true : (i : EvaluationInput) (p : Policy) → role_test i p ≡ true → ¬ RoleMet i p
  unfolding role_test
  role_test-true i p h (inl k) = cc ((no_requirement_iff p.required_roles).1 k)
  role_test-true i p h (inr k) = ground (
    arith,
    (has_any_required_role_iff (normalize_string_slice i.actor_roles)
          (normalize_string_slice p.required_roles)).1
        (inr ((AnyHeld-normalize i.actor_roles p.required_roles).1 k)),
  )

  pub capability_test-false :
      (i : EvaluationInput) (p : Policy) → capability_test i p ≡ false → CapabilitiesMet i p
  unfolding capability_test
  capability_test-false i p h =
      (AllHeld-normalize i.organization_capabilities p.required_capabilities).0
        ((none_missing_iff _ _).0 (ground arith))

  pub capability_test-true :
      (i : EvaluationInput) (p : Policy) → capability_test i p ≡ true → ¬ CapabilitiesMet i p
  unfolding capability_test
  capability_test-true i p h k = cc (
      (none_missing_iff _ _).1
        ((AllHeld-normalize i.organization_capabilities p.required_capabilities).1 k))

  module _ (i : EvaluationInput) (p : Policy) (r : EvaluationResult) (complete : IsComplete i)
      (found : i.policy ≡ some p) (denied_so_far : r.decision ≡ decision_deny)
      (roles : r.actor_roles ≡ normalize_string_slice i.actor_roles)
      (capabilities : r.organization_capabilities
        ≡ normalize_string_slice i.organization_capabilities) where
    require-Verdict :
        normal p.status ≡ status_active
        → normal p.effect ≡ effect_allow
        → (q : EvaluationResult) → q.decision ≡ decision_deny
        → q.actor_roles ≡ normalize_string_slice i.actor_roles
        → q.organization_capabilities ≡ normalize_string_slice i.organization_capabilities
        → let c =
            check_requirements
              (normalize_string_slice p.required_roles)
              (normalize_string_slice p.required_capabilities)
              q in
          Verdict i c.decision c.deny_reason
    unfolding check_requirements
    require-Verdict active allows q d a b = elim (Bool-cases (role_test i p)) [
      | inl bad ↦
          no_role p complete found active allows (role_test-true i p bad)
            (unfold role_test in ground arith) (unfold role_test in ground arith)
      | inr good ↦ elim (Bool-cases (capability_test i p)) [
        | inl bad ↦
            no_capability p complete found active allows (role_test-false i p good)
              (capability_test-true i p bad) (unfold role_test capability_test in ground arith)
              (unfold role_test capability_test in ground arith)
        | inr fine ↦
            permitted p
              (record {
                complete = complete;
                found = found;
                active = active;
                allows = allows;
                role = role_test-false i p good;
                capabilities = capability_test-false i p fine;
              })
              (unfold role_test capability_test in ground arith)
              (unfold role_test capability_test in ground arith)
      ]
    ]

    apply_policy-Verdict : Verdict i (apply_policy p r).decision (apply_policy p r).deny_reason
    unfolding apply_policy
    apply_policy-Verdict = elim (Bool-cases (normal p.status == status_active)) [
      | inr off ↦ rw off (disabled p complete found (ne_of_test _ _ off) denied_so_far refl)
      | inl on ↦ rw on (elim (Bool-cases (normal p.effect == effect_deny)) [
        | inl no_way ↦
            rw no_way (
              denied p complete found ((eq_iff _ _).0 on) ((eq_iff _ _).0 no_way) denied_so_far
                refl)
        | inr other ↦ rw other (elim (Bool-cases (normal p.effect == effect_allow)) [
          | inl allows ↦ rw allows (
              require-Verdict ((eq_iff _ _).0 on) ((eq_iff _ _).0 allows) _ denied_so_far roles
                capabilities)
          | inr neither ↦ rw neither (
              unsupported p complete found ((eq_iff _ _).0 on) (ne_of_test _ _ other)
                (ne_of_test _ _ neither) denied_so_far refl)
        ])
      ])
    ]

  policy-Verdict :
      (i : EvaluationInput) (o : Option Policy) (r : EvaluationResult)
      → i.policy ≡ o
      → IsComplete i
      → r.decision ≡ decision_deny
      → r.actor_roles ≡ normalize_string_slice i.actor_roles
      → r.organization_capabilities ≡ normalize_string_slice i.organization_capabilities
      → let c : EvaluationResult = elim o [ none ↦ deny not_found r | some p ↦ apply_policy p r ] in
        Verdict i c.decision c.deny_reason
  policy-Verdict i none r found complete d a b = no_policy complete found d refl
  policy-Verdict i (some p) r found complete d a b = apply_policy-Verdict i p r complete found d a b

  -- The decision and the reason of Evaluate are those of the first condition that fails, in the
  -- order target system, method, route, operation, policy, status, effect, roles, capabilities, or
  -- ALLOW with no reason.
  pub evaluate-Verdict :
      (i : EvaluationInput) → Verdict i (evaluate i).decision (evaluate i).deny_reason
  unfolding evaluate
  evaluate-Verdict i = elim (Bool-cases (normal i.target_system == "")) [
    | inl a ↦ rw a (no_target_system ((eq_iff _ _).0 a) refl refl)
    | inr a ↦ rw a (elim (Bool-cases (normal i.method == "")) [
      | inl b ↦ rw b (no_method (ne_of_test _ _ a) ((eq_iff _ _).0 b) refl refl)
      | inr b ↦ rw b (elim (Bool-cases (trim_space i.route == "")) [
        | inl c ↦ rw c (no_route (ne_of_test _ _ a) (ne_of_test _ _ b) ((eq_iff _ _).0 c) refl refl)
        | inr c ↦ rw c (elim (Bool-cases (trim_space i.operation == "")) [
          | inl d ↦ rw d (
              no_operation (ne_of_test _ _ a) (ne_of_test _ _ b) (ne_of_test _ _ c)
                ((eq_iff _ _).0 d) refl refl)
          | inr d ↦ rw d (
              policy-Verdict i i.policy (initial_result i) refl
                (record {
                  target_system = ne_of_test _ _ a;
                  method = ne_of_test _ _ b;
                  route = ne_of_test _ _ c;
                  operation = ne_of_test _ _ d;
                })
                refl refl refl)
        ])
      ])
    ])
  ]
