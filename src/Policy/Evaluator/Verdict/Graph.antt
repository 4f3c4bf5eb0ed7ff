-- ===== src/Policy/Evaluator/Verdict/Graph.antt =====
-- About internal/policy/evaluator.go, Evaluate: its specification leaves no choice.
use taifa_exchange.Base.{
  Bool-cases, String, false, inl, inr, none, refl, some, test_of_ne, true, ◌≡◌, ◌∙◌, ap, sym, ◌↔◌,
}
use taifa_exchange.Policy.Evaluator.{
  apply_policy, check_requirements, deny, evaluate, initial_result,
}
use taifa_exchange.Policy.Evaluator.Verdict.{
  CapabilitiesMet, IsComplete, RoleMet, Verdict, denied, disabled, no_capability, no_method,
  no_operation, no_policy, no_role, no_route, no_target_system, permitted, unsupported,
}
use taifa_exchange.Policy.Evaluator.Verdict.Proof.{
  capability_test, capability_test-false, capability_test-true, role_test, role_test-false,
  role_test-true, evaluate-Verdict,
}
use taifa_exchange.Policy.Model.{EvaluationInput, EvaluationResult, Policy, not_found}
use taifa_exchange.Text.{Unicode}

-- The decision and the reason of an evaluation.
abbrev pub answer_of : EvaluationResult → String × String
answer_of e = (e.decision, e.deny_reason)

module _ ⦃u : Unicode⦄ (i : EvaluationInput) where
  RoleMet-role_test : (p : Policy) → RoleMet i p → role_test i p ≡ false
  RoleMet-role_test p h = elim (Bool-cases (role_test i p)) [
    | inl e ↦ absurd (role_test-true i p e h)
    | inr e ↦ e
  ]

  not-RoleMet : (p : Policy) → ¬ RoleMet i p → role_test i p ≡ true
  not-RoleMet p h = elim (Bool-cases (role_test i p)) [
    | inl e ↦ e
    | inr e ↦ absurd (h (role_test-false i p e))
  ]

  CapabilitiesMet-capability_test : (p : Policy) → CapabilitiesMet i p → capability_test i p ≡ false
  CapabilitiesMet-capability_test p h = elim (Bool-cases (capability_test i p)) [
    | inl e ↦ absurd (capability_test-true i p e h)
    | inr e ↦ e
  ]

  not-CapabilitiesMet : (p : Policy) → ¬ CapabilitiesMet i p → capability_test i p ≡ true
  not-CapabilitiesMet p h = elim (Bool-cases (capability_test i p)) [
    | inl e ↦ e
    | inr e ↦ absurd (h (capability_test-false i p e))
  ]

  -- With the four fields, Evaluate looks at the policy.
  evaluate-none : IsComplete i → i.policy ≡ none → evaluate i ≡ deny not_found (initial_result i)
  unfolding evaluate
  evaluate-none c h =
      rw (test_of_ne _ _ c.target_system) rw (test_of_ne _ _ c.method) rw (test_of_ne _ _ c.route)
        rw (test_of_ne _ _ c.operation) rw h refl

  evaluate-some :
      (p : Policy)
      → IsComplete i
      → i.policy ≡ some p
      → evaluate i ≡ apply_policy p (initial_result i)
  unfolding evaluate
  evaluate-some p c h =
      rw (test_of_ne _ _ c.target_system) rw (test_of_ne _ _ c.method) rw (test_of_ne _ _ c.route)
        rw (test_of_ne _ _ c.operation) rw h refl

  reason :
      (p : Policy)
      → IsComplete i
      → i.policy ≡ some p
      → {x : String × String} → x ≡ answer_of (apply_policy p (initial_result i))
      → x ≡ answer_of (evaluate i)
  reason p c h e = e ∙ ap answer_of (sym (evaluate-some p c h))

  -- A verdict is the decision and the reason of Evaluate.
  pub Verdict-answer : (d r : String) → Verdict i d r → (d, r) ≡ answer_of (evaluate i)
  unfolding evaluate apply_policy check_requirements role_test capability_test
  Verdict-answer d r (no_target_system h e f) = rw e rw f rw h refl
  Verdict-answer d r (no_method a h e f) = rw e rw f rw (test_of_ne _ _ a) rw h refl
  Verdict-answer d r (no_route a b h e f) =
      rw e rw f rw (test_of_ne _ _ a) rw (test_of_ne _ _ b) rw h refl
  Verdict-answer d r (no_operation a b c h e f) =
      rw e rw f rw (test_of_ne _ _ a) rw (test_of_ne _ _ b) rw (test_of_ne _ _ c) rw h refl
  Verdict-answer d r (no_policy c h e f) = rw e rw f (ap answer_of (sym (evaluate-none c h)))
  Verdict-answer d r (disabled p c h s e f) = rw e rw f (reason p c h (rw (test_of_ne _ _ s) refl))
  Verdict-answer d r (denied p c h s x e f) = rw e rw f (reason p c h (rw s rw x refl))
  Verdict-answer d r (unsupported p c h s x y e f) =
      rw e rw f (reason p c h (rw s rw (test_of_ne _ _ x) rw (test_of_ne _ _ y) refl))
  Verdict-answer d r (no_role p c h s x n e f) =
      rw e rw f (reason p c h (rw s rw x rw (not-RoleMet p n) refl))
  Verdict-answer d r (no_capability p c h s x m n e f) =
      rw e rw f
        (reason p c h (rw s rw x rw (RoleMet-role_test p m) rw (not-CapabilitiesMet p n) refl))
  Verdict-answer d r (permitted p k e f) = rw e rw f (
      reason p k.complete k.found (
        rw k.active rw k.allows rw (RoleMet-role_test p k.role) rw
          (CapabilitiesMet-capability_test p k.capabilities) refl))

  -- Evaluate gives a decision and a reason exactly if they are those of the first condition that
  -- fails, in the order target system, method, route, operation, policy, status, effect, roles,
  -- capabilities, or are ALLOW with no reason.
  pub evaluate-Verdict_iff :
      (d r : String)
      → Verdict i d r ↔ ((d ≡ (evaluate i).decision) × (r ≡ (evaluate i).deny_reason))
  evaluate-Verdict_iff d r = (
    λ v. (
      ap (λ (x : String × String). x.0) (Verdict-answer d r v),
      ap (λ (x : String × String). x.1) (Verdict-answer d r v),
    ),
    λ (e, f). rw e rw f (evaluate-Verdict i),
  )
