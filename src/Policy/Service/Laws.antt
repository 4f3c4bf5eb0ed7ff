-- ===== src/Policy/Service/Laws.antt =====
-- About internal/policy/service.go, Evaluate.
use taifa_exchange.Base.{Option, none, refl, some, true, ◌≡◌, [], arith}
use taifa_exchange.Database.Session.{Pool, Session}
use taifa_exchange.Database.Tables.{Tables}
use taifa_exchange.Outcome.{Error, Result, err, is_policy_not_found, ok, policy_not_found}
use taifa_exchange.Policy.Evaluator.{evaluate}
use taifa_exchange.Policy.Model.{AuthorizationInput, EvaluationResult, Policy, lookup_input}
use taifa_exchange.Policy.Repository.{find_by_route}
use taifa_exchange.Policy.Repository.Laws.{find_by_route-Reads, found_or_missing, stored_policy}
use taifa_exchange.Policy.Service.{Service, answer, evaluation_input, service_evaluate}
use taifa_exchange.Text.{Unicode}

module _ ⦃u : Unicode⦄ (pool : Pool) (input : AuthorizationInput) where
  -- The evaluation that the tables call for.
  abbrev pub expected : Tables → EvaluationResult
  expected t =
      evaluate
        (evaluation_input (lookup_input input) (stored_policy pool (lookup_input input) t) input)

  abbrev with_pool : Option Service
  with_pool = some (record { repository = some (some pool) })

  answer-ok :
      (r : Result Policy) (o : Option Policy) (e : EvaluationResult)
      → ((p : Policy) → r ≡ ok p → found_or_missing o ≡ ok p)
      → ((x : Error)
          → r ≡ err x
          → is_policy_not_found x ≡ true
          → found_or_missing o ≡ err policy_not_found)
      → answer input r ≡ ok e
      → e ≡ evaluate (evaluation_input (lookup_input input) o input)
  unfolding answer
  answer-ok (ok p) none e v m h = cc (v p refl)
  answer-ok (ok p) (some q) e v m h = cc (v p refl)
  answer-ok (err x) none e v m h = ground arith
  answer-ok (err x) (some q) e v m h = let no = m x refl in ground arith

  -- A result that Service.Evaluate returns is that of the evaluator on the policy that the tables
  -- hold for the request, whichever calls failed on the way.
  pub service_evaluate-ok :
      (s : Session) (e : EvaluationResult)
      → (service_evaluate with_pool input s).0 ≡ ok e
      → e ≡ expected s.tables
  unfolding service_evaluate
  service_evaluate-ok s e h =
      let r = find_by_route-Reads pool (lookup_input input) s in
      answer-ok (find_by_route (some (some pool)) (lookup_input input) s).0
        (stored_policy pool (lookup_input input) s.tables) e r.value r.missing h

  pub service_evaluate_tables :
      (s : Session) → (service_evaluate with_pool input s).1.tables ≡ s.tables
  unfolding service_evaluate
  service_evaluate_tables s = (find_by_route-Reads pool (lookup_input input) s).kept

  answer_sound :
      (o : Option Policy)
      → answer input (found_or_missing o)
        ≡ ok (evaluate (evaluation_input (lookup_input input) o input))
  unfolding answer
  answer_sound none = refl
  answer_sound (some p) = refl

  -- Where its repository has a pool and no call fails, Service.Evaluate returns the result of the
  -- evaluator on the policy that the tables hold for the request, or on none.
  pub service_evaluate_total :
      (s : Session)
      → s.faults ≡ []
      → (service_evaluate with_pool input s).0 ≡ ok (expected s.tables)
  unfolding service_evaluate
  service_evaluate_total s h =
      rw ((find_by_route-Reads pool (lookup_input input) s).sound h).0
        (answer_sound (stored_policy pool (lookup_input input) s.tables))

  pub service_evaluate_faults :
      (s : Session) → s.faults ≡ [] → (service_evaluate with_pool input s).1.faults ≡ []
  unfolding service_evaluate
  service_evaluate_faults s h = ((find_by_route-Reads pool (lookup_input input) s).sound h).1
