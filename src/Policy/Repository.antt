-- ===== src/Policy/Repository.antt =====
-- internal/policy/repository.go. Reading the rows of a result is a second call to the server;
-- scanning a NOT NULL text column cannot fail.
pub mod Laws
use taifa_exchange.Database.Session.{◌>>=◌, ◌>>◌, Db, Pool, call, pure, raise, wrapping, nothing}
use taifa_exchange.Base.{List, Option, String, if◌then◌else◌, none, some}
use taifa_exchange.Database.Statements.{capabilities_of, find_policy_row, roles_of, sort}
use taifa_exchange.Database.Tables.{PolicyRow, Tables}
use taifa_exchange.Outcome.{
  Error, Result, err, is_no_rows, no_rows, ok, plain, policy_not_found, wrapped,
}
use taifa_exchange.Policy.Model.{LookupInput, Policy, normalized}
use taifa_exchange.Text.{Unicode}

abbrev pub read {ℓ} : {A : Type ℓ} → (Tables → A) → Tables → Result A × Tables
read f t = (ok (f t), t)

-- The error of `QueryRow(…).Scan(…)` if there is no row.
abbrev pub one_row : Option PolicyRow → Result PolicyRow
one_row none = err no_rows
one_row (some r) = ok r

-- `if errors.Is(err, pgx.ErrNoRows) { return nil, ErrPolicyNotFound }`
abbrev pub found_error : Error → Error
found_error e = if is_no_rows e then policy_not_found else wrapped "find exchange policy" e

abbrev pub lookup_error : Result PolicyRow → Result PolicyRow
lookup_error (ok r) = ok r
lookup_error (err e) = err (found_error e)

unfoldable pub list_policy_roles : Pool → String → Db (List String)
list_policy_roles pool policy_id = do
  wrapping "list exchange policy roles" (call nothing)
  wrapping "iterate exchange policy roles"
      (call (read (λ t. sort pool.collate (roles_of policy_id t.roles))))

unfoldable pub list_policy_capabilities : Pool → String → Db (List String)
list_policy_capabilities pool policy_id = do
  wrapping "list exchange policy capabilities" (call nothing)
  wrapping "iterate exchange policy capabilities"
      (call (read (λ t. sort pool.collate (capabilities_of policy_id t.capabilities))))

-- QueryRow and Scan: the policy without its roles and capabilities.
unfoldable pub query_policy : LookupInput → Db PolicyRow
query_policy input s =
    let (r, s') =
      call
        (λ t. (
          one_row (
              find_policy_row input.target_system input.method input.route input.operation
                t.policies),
          t,
        ))
        s in
    (lookup_error r, s')

abbrev pub policy_of : PolicyRow → List String → List String → Policy
policy_of r roles capabilities = record {
  id = r.id;
  target_system = r.target_system;
  route_pattern = r.route_pattern;
  method = r.method;
  operation = r.operation;
  effect = r.effect;
  status = r.status;
  description = r.description;
  required_roles = roles;
  required_capabilities = capabilities;
}

-- `policy.NewRepository`
abbrev pub new_repository : Option Pool → Option (Option Pool)
new_repository pool = some pool

module _ ⦃u : Unicode⦄ where
  -- `Repository.FindByRoute`; a repository holds a pool, and either can be nil.
  unfoldable pub find_by_route : Option (Option Pool) → LookupInput → Db Policy
  find_by_route (some (some pool)) input = do
    found ← query_policy (normalized input)
    roles ← list_policy_roles pool found.id
    capabilities ← list_policy_capabilities pool found.id
    pure (policy_of found roles capabilities)
  find_by_route _ input = raise (plain "policy repository is not configured")
