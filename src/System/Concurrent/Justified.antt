-- ===== src/System/Concurrent/Justified.antt =====
-- About requests that are served at the same time, while no policy is seeded: every decision that
-- is stored is the one that the policies ask for.
use taifa_exchange.Base.{
  Bool-cases, ne_of_test, eq_iff, ◌==◌, ◌≢◌, All, In, [], ◌≡◌, ◌⊎◌, ◌∙◌, ap, refl, subst, sym,
  All-In, arith, false, inl, inr, map_All, true, All-at, All-remove,
}
use taifa_exchange.Database.Session.{Pool, Session}
use taifa_exchange.Database.Tables.{DecisionRow, Tables, OutboxRow}
use taifa_exchange.Exchange.Model.{decision_allow, error_code_forbidden}
use taifa_exchange.Exchange.Repository.{decision_row}
use taifa_exchange.Exchange.Service.Course.{
  invalid_request, no_client, no_actor, no_capabilities, no_policy_service, denied, allowed,
  question, full_record,
}
use taifa_exchange.Exchange.Service.Decisions.{Granted, granted_of}
use taifa_exchange.Policy.Model.{AuthorizationInput, EvaluationResult}
use taifa_exchange.Policy.Repository.Laws.{stored_policy}
use taifa_exchange.Policy.Service.Laws.{expected}
use taifa_exchange.Exchange.Service.Laws.{conclude_atomic}
use taifa_exchange.System.Concurrent.{
  moving, still, ExplainedBy, Pending, State, Move, Moves, creates_event, idle, looks_up, persisted,
  persists, seeds_policies,
}
use taifa_exchange.System.Concurrent.Interleaved.{looks_up-ExplainedBy}
use taifa_exchange.Text.{Unicode}
use taifa_exchange.Exchange.Results.{allow_result, deny_result}
use taifa_exchange.Exchange.Service.{evaluated}
use taifa_exchange.Database.Statements.{insert_outbox_row}
use taifa_exchange.System.Stable.{create-Keeps}

-- The tables hold the same policies.
pub record SamePolicies (t t' : Tables) : Type 0 where
  pub policies : t.policies ≡ t'.policies
  pub roles : t.roles ≡ t'.roles
  pub capabilities : t.capabilities ≡ t'.capabilities

same_sym : (t t' : Tables) → SamePolicies t t' → SamePolicies t' t
same_sym t t' h = record {
  policies = sym h.policies;
  roles = sym h.roles;
  capabilities = sym h.capabilities;
}

false-true : ¬ (false ≡ true)
false-true h = cc

abbrev with_policies : Tables → Tables → Tables
with_policies t t' = record t {
  policies = t'.policies;
  roles = t'.roles;
  capabilities = t'.capabilities;
}

same_with : (t t' : Tables) → SamePolicies t t' → with_policies t t' ≡ t
same_with t t' same = rw (← same.policies) rw (← same.roles) rw (← same.capabilities) refl

module _ ⦃u : Unicode⦄ where
  expected_same :
      (pool : Pool) (q : AuthorizationInput) (t t' : Tables)
      → SamePolicies t t'
      → expected pool q t ≡ expected pool q t'
  unfolding stored_policy
  expected_same pool q t t' same = ap (expected pool q) (sym (same_with t t' same))

  module _ (t t' : Tables) (same : SamePolicies t t') where
    -- An explanation holds on all tables with the same policies.
    Explained-same : (p : Pending) → ExplainedBy t p → ExplainedBy t' p
    Explained-same p (invalid_request v e) = invalid_request v e
    Explained-same p (no_client v n e) = no_client v n e
    Explained-same p (no_actor v x k e) = no_actor v x k e
    Explained-same p (no_capabilities v a x k l e) = no_capabilities v a x k l e
    Explained-same p (no_policy_service a c k n e) = no_policy_service a c k n e
    Explained-same p (denied a c pool k has n e) =
        let eq = expected_same pool (question p.env p.service p.input a c) t t' same in
        denied a c pool k has (subst (λ (x : EvaluationResult). x.decision ≢ decision_allow) eq n) (
          e
          ∙ ap
              (λ (x : EvaluationResult).
                deny_result (evaluated p.env p.service (full_record p.env p.service p.input a c) x)
                  403 error_code_forbidden "Exchange policy denied the request.")
              eq)
    Explained-same p (allowed a c pool k has y e) =
        let eq = expected_same pool (question p.env p.service p.input a c) t t' same in
        allowed a c pool k has (ap (λ (x : EvaluationResult). x.decision) (sym eq) ∙ y) (
          e
          ∙ ap
              (λ (x : EvaluationResult).
                allow_result (evaluated p.env p.service (full_record p.env p.service p.input a c) x)
                  a.content)
              eq)

  -- A row is the decision of a call of Authorize that the policies of these tables explain, and it
  -- is no ALLOW or they grant it.
  pub record IsJustified (t : Tables) (d : DecisionRow) : Type 0 where
    pub call : Pending
    pub row : d ≡ decision_row call.result.decision_record
    pub explained : ExplainedBy t call
    pub verdict :
        (d.decision ≢ decision_allow)
        ⊎ Granted call.env call.service call.input (record { tables = t; faults = [] })

  justified :
      (t : Tables) (p : Pending)
      → ExplainedBy t p
      → IsJustified t (decision_row p.result.decision_record)
  unfolding decision_row
  justified t p why = record {
    call = p;
    row = refl;
    explained = why;
    verdict = elim (Bool-cases (p.result.decision_record.decision == decision_allow)) [
      | inl yes_allow ↦ inr (
          granted_of p.env p.service p.input (record { tables = t; faults = [] }) p.result why
            ((eq_iff _ _).0 yes_allow))
      | inr no_allow ↦ inl (ne_of_test _ _ no_allow)
    ];
  }

  -- The policies are those of `t`, the calls under way are explained by them, and so are the new
  -- decisions.
  record IsServing (t : Tables) (x : State) : Type 0 where
    pub same : SamePolicies t x.tables
    pub pending : All (ExplainedBy t) x.pending
    pub decisions : All (λ d. In d t.decisions ⊎ IsJustified t d) x.tables.decisions

  module _ (t : Tables) where
    -- The part of it that is about the tables.
    record AreServed (t' : Tables) : Type 0 where
      pub same : SamePolicies t t'
      pub decisions : All (λ d. In d t.decisions ⊎ IsJustified t d) t'.decisions

    outbox-AreServed :
        (r : OutboxRow) (t' : Tables) → AreServed t' → AreServed (insert_outbox_row r t').1
    unfolding insert_outbox_row
    outbox-AreServed r t' h = ground (arith, h)

    persisted-AreServed :
        (p : Pending) (s : Session)
        → ExplainedBy t p
        → AreServed s.tables
        → AreServed (persisted p s)
    persisted-AreServed p s why h = elim (conclude_atomic p.env p.service p.result s) [
      | inl unchanged ↦ subst AreServed (sym unchanged) h
      | inr (rows, fits) ↦ subst AreServed (sym rows) (record {
        same = record {
          policies = h.same.policies;
          roles = h.same.roles;
          capabilities = h.same.capabilities;
        };
        decisions = (inr (justified t p why), h.decisions);
      })
    ]

    Move-IsServing : (x y : State) → Move false x y → IsServing t x → IsServing t y
    Move-IsServing x y (looks_up p s seen came) h = record {
      same = h.same;
      pending = (
        Explained-same x.tables t (same_sym t x.tables h.same) p
            (looks_up-ExplainedBy x.tables p s seen came),
        h.pending,
      );
      decisions = h.decisions;
    }
    Move-IsServing x y (persists before p after s place same) h =
        let (why, rest) =
          All-remove (ExplainedBy t) before p after (subst (All (ExplainedBy t)) place h.pending) in
        let served =
          persisted-AreServed p s why
            (subst AreServed (sym same) (record { same = h.same; decisions = h.decisions })) in
        record { same = served.same; pending = rest; decisions = served.decisions }
    Move-IsServing x y (creates_event d repository event s same) h =
        let served =
          create-Keeps AreServed outbox-AreServed d repository event s
            (subst AreServed (sym same) (record { same = h.same; decisions = h.decisions })) in
        record { same = served.same; pending = h.pending; decisions = served.decisions }
    Move-IsServing x y (seeds_policies draws policies seeder s on same) h = absurd (false-true on)

    Moves-IsServing : (x : State) → Moves false (idle t) x → IsServing t x
    Moves-IsServing x still = record {
      same = record { policies = refl; roles = refl; capabilities = refl };
      pending = tt;
      decisions = map_All (λ d i. inl i) t.decisions (All-In t.decisions);
    }
    Moves-IsServing x (moving {y} {z} moves move) =
        Move-IsServing y z move (Moves-IsServing y moves)

    -- However the lookups and the transactions of any number of calls of Authorize are interleaved
    -- and whichever calls of the database fail, while no policy is seeded: every decision in the
    -- tables was there at the start, or is that of a call of Authorize with the result that its
    -- request, the answers of the identity service and the policies of the tables explain, and then
    -- it is no ALLOW or these grant it.
    pub Moves-Justified :
        (x : State)
        → Moves false (idle t) x
        → (d : DecisionRow) → In d x.tables.decisions
        → In d t.decisions ⊎ IsJustified x.tables d
    Moves-Justified x moves d i =
        let serving = Moves-IsServing x moves in
        elim (All-at (λ d. In d t.decisions ⊎ IsJustified t d) x.tables.decisions d
          serving.decisions i) [
            | inl there ↦ inl there
            | inr why ↦ inr (
                subst (IsJustified x.tables) (sym why.row) (
                  justified x.tables why.call
                    (Explained-same t x.tables serving.same why.call why.explained)))
          ]
