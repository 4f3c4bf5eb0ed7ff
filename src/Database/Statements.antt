-- ===== src/Database/Statements.antt =====
-- The SQL statements of the program, as the server runs them on the tables.
use taifa_exchange.Outcome.{Error, Result, ok, err, external}
use taifa_exchange.Base.{
  Bool, List, Option, String, [], contains, false, if◌then◌else◌, none, not, some, true, ◌&&◌, ◌==◌,
  ◌||◌, ◌∷◌,
}
use taifa_exchange.Database.Tables.{
  CapabilityRow, DecisionRow, OutboxRow, PolicyRow, RoleRow, Tables, capability_names,
  decision_row_ok, policy_row_ok, role_names,
}

-- An INSERT that breaks a constraint.
abbrev pub violates : String → Error
violates constraint = external constraint

-- A row with this identifier is in the table.
unfoldable pub policy_exists : String → List PolicyRow → Bool
policy_exists id [] = false
policy_exists id (r ∷ rs) = r.id == id || policy_exists id rs

abbrev pub same_route : PolicyRow → PolicyRow → Bool
same_route a b =
    a.target_system == b.target_system
    && a.method == b.method
    && a.route_pattern == b.route_pattern
    && a.operation == b.operation

-- A row conflicts with one of the table: by the primary key or by the unique index.
unfoldable pub policy_conflict : PolicyRow → List PolicyRow → Bool
policy_conflict r [] = false
policy_conflict r (q ∷ qs) = q.id == r.id || same_route q r || policy_conflict r qs

unfoldable pub role_conflict : RoleRow → List RoleRow → Bool
role_conflict r [] = false
role_conflict r (q ∷ qs) =
    q.id == r.id || (q.policy_id == r.policy_id && q.role == r.role) || role_conflict r qs

unfoldable pub capability_conflict : CapabilityRow → List CapabilityRow → Bool
capability_conflict r [] = false
capability_conflict r (q ∷ qs) =
    q.id == r.id
    || (q.policy_id == r.policy_id && q.capability == r.capability)
    || capability_conflict r qs

unfoldable pub decision_exists : String → List DecisionRow → Bool
decision_exists id [] = false
decision_exists id (r ∷ rs) = r.id == id || decision_exists id rs

unfoldable pub outbox_exists : String → List OutboxRow → Bool
outbox_exists id [] = false
outbox_exists id (r ∷ rs) = r.id == id || outbox_exists id rs

-- INSERT INTO exchange_policies … ON CONFLICT DO NOTHING: whether a row was inserted.
unfoldable pub insert_policy : PolicyRow → Tables → Result Bool × Tables
insert_policy r t =
    if not (policy_row_ok r)
    then (err (violates "exchange_policies check"), t)
    else if policy_conflict r t.policies
    then (ok false, t)
    else (ok true, record t { policies = r ∷ t.policies })

-- INSERT INTO exchange_policy_roles … ON CONFLICT DO NOTHING. The foreign key is checked for a
-- row that is inserted.
unfoldable pub insert_role : RoleRow → Tables → Result Bool × Tables
insert_role r t =
    if not (contains role_names r.role)
    then (err (violates "exchange_policy_roles_role_check"), t)
    else if role_conflict r t.roles
    then (ok false, t)
    else if policy_exists r.policy_id t.policies
    then (ok true, record t { roles = r ∷ t.roles })
    else (err (violates "exchange_policy_roles_policy_id_fkey"), t)

unfoldable pub insert_capability : CapabilityRow → Tables → Result Bool × Tables
insert_capability r t =
    if not (contains capability_names r.capability)
    then (err (violates "exchange_policy_capabilities_capability_check"), t)
    else if capability_conflict r t.capabilities
    then (ok false, t)
    else if policy_exists r.policy_id t.policies
    then (ok true, record t { capabilities = r ∷ t.capabilities })
    else (err (violates "exchange_policy_capabilities_policy_id_fkey"), t)

abbrev pub reference_ok : Option String → List PolicyRow → Bool
reference_ok none ps = true
reference_ok (some id) ps = policy_exists id ps

-- INSERT INTO exchange_authorization_decisions
unfoldable pub insert_decision_row : DecisionRow → Tables → Result (Unit {0}) × Tables
insert_decision_row r t =
    if not (decision_row_ok r)
    then (err (violates "exchange_authorization_decisions check"), t)
    else if decision_exists r.id t.decisions
    then (err (violates "exchange_authorization_decisions_pkey"), t)
    else if reference_ok r.matched_policy_id t.policies
    then (ok tt, record t { decisions = r ∷ t.decisions })
    else (err (violates "exchange_authorization_decisions_matched_policy_id_fkey"), t)

-- INSERT INTO audit_outbox
unfoldable pub insert_outbox_row : OutboxRow → Tables → Result (Unit {0}) × Tables
insert_outbox_row r t =
    if outbox_exists r.id t.outbox
    then (err (violates "audit_outbox_pkey"), t)
    else (ok tt, record t { outbox = r ∷ t.outbox })

-- SELECT … FROM exchange_policies WHERE … LIMIT 1
unfoldable pub find_policy_row :
    String → String → String → String → List PolicyRow → Option PolicyRow
find_policy_row target method route operation [] = none
find_policy_row target method route operation (r ∷ rs) =
    if r.target_system == target
      && r.method == method
      && r.route_pattern == route
      && r.operation == operation
    then some r
    else find_policy_row target method route operation rs

-- Sorting by a given order, for ORDER BY.
insert_sorted : (String → String → Bool) → String → List String → List String
insert_sorted le x [] = x ∷ []
insert_sorted le x (y ∷ ys) = if le x y then x ∷ y ∷ ys else y ∷ insert_sorted le x ys

unfoldable pub sort : (String → String → Bool) → List String → List String
unfolding insert_sorted
sort le [] = []
sort le (x ∷ xs) = insert_sorted le x (sort le xs)

unfoldable pub roles_of : String → List RoleRow → List String
roles_of id [] = []
roles_of id (r ∷ rs) =
    let rest = roles_of id rs in if r.policy_id == id then r.role ∷ rest else rest

unfoldable pub capabilities_of : String → List CapabilityRow → List String
capabilities_of id [] = []
capabilities_of id (r ∷ rs) =
    let rest = capabilities_of id rs in if r.policy_id == id then r.capability ∷ rest else rest
