-- ===== src/Policy/Evaluator/Verdict/Allow.antt =====
-- About internal/policy/evaluator.go, Evaluate: when it allows a request.
use taifa_exchange.Base.{String, arith, ◌≡◌, ◌≢◌, ◌↔◌, ◌∙◌, sym, eq_iff, some}
use taifa_exchange.Policy.Evaluator.Verdict.Proof.{evaluate-Verdict}
use taifa_exchange.Policy.Evaluator.{evaluate}
use taifa_exchange.Policy.Evaluator.Verdict.{
  Permits, Verdict, denied, disabled, no_capability, no_method, no_operation, no_policy, no_role,
  no_route, no_target_system, permitted, unsupported,
}
use taifa_exchange.Policy.Model.{EvaluationInput, Policy, decision_allow, decision_deny}
use taifa_exchange.Text.{Unicode}

module _ ⦃u : Unicode⦄ where
  deny-ne-allow : ◌≢◌ {A = String} decision_deny decision_allow
  deny-ne-allow h = ground (arith, eq_iff decision_deny decision_allow)

  Permits-of_allow :
      (i : EvaluationInput) (d r : String)
      → Verdict i d r
      → d ≡ decision_allow
      → (p : Policy) × Permits i p
  Permits-of_allow i d r (permitted p h _ _) e = (p, h)
  Permits-of_allow i d r (no_target_system _ h _) e = absurd (deny-ne-allow (sym h ∙ e))
  Permits-of_allow i d r (no_method _ _ h _) e = absurd (deny-ne-allow (sym h ∙ e))
  Permits-of_allow i d r (no_route _ _ _ h _) e = absurd (deny-ne-allow (sym h ∙ e))
  Permits-of_allow i d r (no_operation _ _ _ _ h _) e = absurd (deny-ne-allow (sym h ∙ e))
  Permits-of_allow i d r (no_policy _ _ h _) e = absurd (deny-ne-allow (sym h ∙ e))
  Permits-of_allow i d r (disabled _ _ _ _ h _) e = absurd (deny-ne-allow (sym h ∙ e))
  Permits-of_allow i d r (denied _ _ _ _ _ h _) e = absurd (deny-ne-allow (sym h ∙ e))
  Permits-of_allow i d r (unsupported _ _ _ _ _ _ h _) e = absurd (deny-ne-allow (sym h ∙ e))
  Permits-of_allow i d r (no_role _ _ _ _ _ _ h _) e = absurd (deny-ne-allow (sym h ∙ e))
  Permits-of_allow i d r (no_capability _ _ _ _ _ _ _ h _) e = absurd (deny-ne-allow (sym h ∙ e))

  pub same_policy :
      (i : EvaluationInput) (p q : Policy) → i.policy ≡ some p → i.policy ≡ some q → p ≡ q
  same_policy i p q a b = cc

  allow_of_Permits :
      (i : EvaluationInput) (d r : String) (p : Policy)
      → Permits i p
      → Verdict i d r
      → d ≡ decision_allow
  allow_of_Permits i d r p k (permitted _ _ h _) = h
  allow_of_Permits i d r p k (no_target_system h _ _) = absurd (k.complete.target_system h)
  allow_of_Permits i d r p k (no_method _ h _ _) = absurd (k.complete.method h)
  allow_of_Permits i d r p k (no_route _ _ h _ _) = absurd (k.complete.route h)
  allow_of_Permits i d r p k (no_operation _ _ _ h _ _) = absurd (k.complete.operation h)
  allow_of_Permits i d r p k (no_policy _ h _ _) = cc (k.found)
  allow_of_Permits i d r p k (disabled q _ f h _ _) =
      absurd (h (rw (same_policy i q p f k.found) k.active))
  allow_of_Permits i d r p k (denied q _ f _ h _ _) =
      absurd (deny-ne-allow (sym h ∙ rw (same_policy i q p f k.found) k.allows))
  allow_of_Permits i d r p k (unsupported q _ f _ _ h _ _) =
      absurd (h (rw (same_policy i q p f k.found) k.allows))
  allow_of_Permits i d r p k (no_role q _ f _ _ h _ _) =
      absurd (h (rw (same_policy i q p f k.found) k.role))
  allow_of_Permits i d r p k (no_capability q _ f _ _ _ h _ _) =
      absurd (h (rw (same_policy i q p f k.found) k.capabilities))

  -- Evaluate decides ALLOW exactly if the four fields of the request are not blank and there is an
  -- active policy with the effect ALLOW of which some required role is held, or none is required,
  -- and every required capability is held, all compared in their normal forms.
  pub evaluate-allow_iff :
      (i : EvaluationInput)
      → ((evaluate i).decision ≡ decision_allow) ↔ ((p : Policy) × Permits i p)
  evaluate-allow_iff i = (
    Permits-of_allow i _ _ (evaluate-Verdict i),
    λ (p, k). allow_of_Permits i _ _ p k (evaluate-Verdict i),
  )
