-- ===== src/System/Growth.antt =====
-- About the tables over time: no row is ever changed or taken away.
use taifa_exchange.Audit.Event.{with_defaults}
use taifa_exchange.Base.{
  List, [], ◌∷◌, ◌≡◌, arith, In, In-append_right, Option, ap, inl, refl, subst, sym, ◌++◌,
}
use taifa_exchange.Database.Statements.{
  insert_capability, insert_outbox_row, insert_policy, insert_role,
}
use taifa_exchange.Database.Tables.{CapabilityRow, OutboxRow, PolicyRow, RoleRow, Tables}
use taifa_exchange.Exchange.Model.{AuthorizeInput, AuthorizeResult}
use taifa_exchange.Audit.Outbox.{outbox_row}
use taifa_exchange.Database.Session.{Session}
use taifa_exchange.Exchange.Repository.{decision_row}
use taifa_exchange.Exchange.Results.{audit_event_for_result}
use taifa_exchange.Exchange.Service.{Surroundings, authorize, Service}
use taifa_exchange.Exchange.Service.Outcomes.{authorize-ok}
use taifa_exchange.Outcome.{ok}
use taifa_exchange.System.{Steps}
use taifa_exchange.System.Trail.{event_row}
use taifa_exchange.System.Stable.{Stable, Steps-keeps}
use taifa_exchange.Text.{Unicode}

-- `ys` is `xs` with rows in front of it.
abbrev pub Suffix : {A : Type 0} → List A → List A → Type 0
Suffix {A} xs ys = (zs : List A) × (ys ≡ zs ++ xs)

Suffix-cons : {A : Type 0} (x : A) (xs ys : List A) → Suffix xs ys → Suffix xs (x ∷ ys)
Suffix-cons x xs ys (zs, h) = (x ∷ zs, ap (λ l. x ∷ l) h)

In-Suffix : {A : Type 0} (x : A) (xs ys : List A) → Suffix xs ys → In x xs → In x ys
In-Suffix x xs ys (zs, h) i = subst (In x) (sym h) (In-append_right zs xs x i)

-- No row of `t` is missing or changed in `t'`: rows were only added.
pub record Grown (t t' : Tables) : Type 0 where
  pub policies : Suffix t.policies t'.policies
  pub roles : Suffix t.roles t'.roles
  pub capabilities : Suffix t.capabilities t'.capabilities
  pub decisions : Suffix t.decisions t'.decisions
  pub outbox : Suffix t.outbox t'.outbox

pub Grown-refl : (t : Tables) → Grown t t
Grown-refl t = record {
  policies = ([], refl);
  roles = ([], refl);
  capabilities = ([], refl);
  decisions = ([], refl);
  outbox = ([], refl);
}

module _ (before : Tables) where
  insert_policy-Grown :
      (r : PolicyRow) (t : Tables) → Grown before t → Grown before (insert_policy r t).1
  unfolding insert_policy
  insert_policy-Grown r t h = ground (arith, Suffix-cons r before.policies t.policies h.policies)

  insert_role-Grown : (r : RoleRow) (t : Tables) → Grown before t → Grown before (insert_role r t).1
  unfolding insert_role
  insert_role-Grown r t h = ground (arith, Suffix-cons r before.roles t.roles h.roles)

  insert_capability-Grown :
      (r : CapabilityRow) (t : Tables) → Grown before t → Grown before (insert_capability r t).1
  unfolding insert_capability
  insert_capability-Grown r t h =
      ground (arith, Suffix-cons r before.capabilities t.capabilities h.capabilities)

  insert_outbox_row-Grown :
      (r : OutboxRow) (t : Tables) → Grown before t → Grown before (insert_outbox_row r t).1
  unfolding insert_outbox_row
  insert_outbox_row-Grown r t h = ground (arith, Suffix-cons r before.outbox t.outbox h.outbox)

module _ ⦃u : Unicode⦄ where
  pub Grown-Stable : (before : Tables) → Stable (Grown before)
  Grown-Stable before = record {
    statements = record {
      policy = insert_policy-Grown before;
      role = insert_role-Grown before;
      capability = insert_capability-Grown before;
      outbox = insert_outbox_row-Grown before;
    };
    record_both = λ env result t fits h. record {
      policies = h.policies;
      roles = h.roles;
      capabilities = h.capabilities;
      decisions = Suffix-cons _ before.decisions t.decisions h.decisions;
      outbox = Suffix-cons _ before.outbox t.outbox h.outbox;
    };
  }

  -- Through any sequence of operations with any failing calls, rows are only added to the tables:
  -- none is changed or taken away.
  pub Steps-Grown : (t t' : Tables) → Steps t t' → Grown t t'
  Steps-Grown t t' steps = Steps-keeps (Grown t) (Grown-Stable t) steps (Grown-refl t)

  module _ (env : Surroundings) (service : Option Service) (input : AuthorizeInput)
      (s : Session) where
    -- Where Authorize returned a result, the tables hold the row of its decision and the row of its
    -- audit event after any further operations with any failing calls.
    pub authorize-Lasting :
        (r : AuthorizeResult) (t : Tables)
        → (authorize env service input s).0 ≡ ok r
        → Steps (authorize env service input s).1.tables t
        → In (decision_row r.decision_record) t.decisions × In (event_row env r) t.outbox
    authorize-Lasting r t h steps =
        let rows = (authorize-ok env service input s r h).rows in
        let grown = Steps-Grown _ t steps in
        (
          In-Suffix _ _ _ grown.decisions (
              subst (λ (x : Tables). In (decision_row r.decision_record) x.decisions) (sym rows)
                (inl refl)),
          In-Suffix _ _ _ grown.outbox (
              subst
                (λ (x : Tables).
                  In
                    (outbox_row
                      (with_defaults env.insert_draw (audit_event_for_result env.event_draw r)))
                    x.outbox)
                (sym rows) (inl refl)),
        )
