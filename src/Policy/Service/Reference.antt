-- ===== src/Policy/Service/Reference.antt =====
-- About internal/policy/service.go, Evaluate: the policy that a result names.
use taifa_exchange.Audit.Outbox.{null_if_empty}
use taifa_exchange.Base.{
  Bool-cases, Option-cases, some-injective, sym, ◌∙◌, List, String, arith, inl, inr, refl, some,
  true, ◌≡◌, ◌⊎◌, eq_iff, ap, ◌==◌, [], ◌∷◌,
}
use taifa_exchange.Database.Session.{Pool}
use taifa_exchange.Database.Statements.{find_policy_row, policy_exists, reference_ok}
use taifa_exchange.Database.Tables.{PolicyRow, Tables}
use taifa_exchange.Policy.Evaluator.{apply_policy, check_requirements, evaluate, initial_result}
use taifa_exchange.Policy.Model.{
  AuthorizationInput, EvaluationInput, EvaluationResult, LookupInput, Policy, normalized,
}
use taifa_exchange.Policy.Repository.Laws.{stored_policy, row_for, row_policy}
use taifa_exchange.Policy.Service.Laws.{expected}
use taifa_exchange.Text.{Unicode, normal, trim_space}

find_policy_row_exists :
    (target method route operation : String) (rs : List PolicyRow) (r : PolicyRow)
    → find_policy_row target method route operation rs ≡ some r
    → policy_exists r.id rs ≡ true
unfolding find_policy_row policy_exists
find_policy_row_exists target method route operation [] r h = cc
find_policy_row_exists target method route operation (q ∷ qs) r h =
    ground (arith, eq_iff q.id r.id, find_policy_row_exists target method route operation qs r)

module _ ⦃u : Unicode⦄ where
  check_requirements_matched :
      (roles capabilities : List String) (e : EvaluationResult)
      → (check_requirements roles capabilities e).matched_policy_id ≡ e.matched_policy_id
  unfolding check_requirements
  check_requirements_matched roles capabilities e = ground arith

  apply_policy_matched :
      (p : Policy) (e : EvaluationResult) → (apply_policy p e).matched_policy_id ≡ p.id
  unfolding apply_policy check_requirements
  apply_policy_matched p e = ground arith

  -- An evaluation names no policy, or the one that it was given.
  evaluate_matched :
      (i : EvaluationInput)
      → ((evaluate i).matched_policy_id ≡ "")
        ⊎ ((p : Policy) × (i.policy ≡ some p) × ((evaluate i).matched_policy_id ≡ p.id))
  unfolding evaluate
  evaluate_matched i = elim (Option-cases i.policy) [
    | inl e ↦ inl (ground arith)
    | inr (p, e) ↦ rw e (
        let same = apply_policy_matched p (initial_result i) in
        elim (Bool-cases (normal i.target_system == "")) [
          | inl a ↦ inl (rw a refl)
          | inr a ↦ rw a (elim (Bool-cases (normal i.method == "")) [
            | inl b ↦ inl (rw b refl)
            | inr b ↦ rw b (elim (Bool-cases (trim_space i.route == "")) [
              | inl c ↦ inl (rw c refl)
              | inr c ↦ rw c (elim (Bool-cases (trim_space i.operation == "")) [
                | inl d ↦ inl (rw d refl)
                | inr d ↦ rw d (inr (p, refl, same))
              ])
            ])
          ])
        ])
  ]

  stored_exists :
      (pool : Pool) (i : LookupInput) (t : Tables) (p : Policy)
      → stored_policy pool i t ≡ some p
      → policy_exists p.id t.policies ≡ true
  unfolding stored_policy
  stored_exists pool i t p h = elim (Option-cases (row_for (normalized i) t)) [
    | inl e ↦ cc
    | inr (r, e) ↦
        let known = find_policy_row_exists _ _ _ _ t.policies r e in
        let same : p.id ≡ r.id =
          sym
            (ap (λ (x : Policy). x.id) (some-injective _ _ (ap (row_policy pool t) (sym e) ∙ h))) in
        rw same known
  ]

  reference_of_empty :
      (id : String) (ps : List PolicyRow) → id ≡ "" → reference_ok (null_if_empty id) ps ≡ true
  unfolding null_if_empty
  reference_of_empty id ps h = rw h refl

  reference_of_exists :
      (id : String) (ps : List PolicyRow)
      → policy_exists id ps ≡ true
      → reference_ok (null_if_empty id) ps ≡ true
  unfolding null_if_empty
  reference_of_exists id ps h = elim (Bool-cases (id == "")) [ inl e ↦ rw e refl | inr e ↦ rw e h ]

  -- The policy that an evaluation names is a row of the tables, so that a decision that refers to
  -- it meets the foreign key.
  pub expected-reference_ok :
      (pool : Pool) (input : AuthorizationInput) (t : Tables)
      → reference_ok (null_if_empty (expected pool input t).matched_policy_id) t.policies ≡ true
  expected-reference_ok pool input t = elim (evaluate_matched _) [
    | inl e ↦ reference_of_empty _ t.policies e
    | inr (p, e, same) ↦ reference_of_exists _ t.policies (rw same (stored_exists pool _ t p e))
  ]
