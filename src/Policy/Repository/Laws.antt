-- ===== src/Policy/Repository/Laws.antt =====
-- About internal/policy/repository.go, FindByRoute, and the policy that the tables hold for a
-- route.
use taifa_exchange.Database.Session.{Pool, Session, call}
use taifa_exchange.Outcome.{◌>>=◌ as ◌>>=ᴿ◌, Result, err, ok, policy_not_found}
use taifa_exchange.Base.{List, Option, String, arith, none, some, refl, subst, ◌≡◌, fun_ext}
use taifa_exchange.Database.Reads.{Reads, Reads-bind, Reads-call, Reads-wrapping, Reads-pure}
use taifa_exchange.Database.Statements.{capabilities_of, find_policy_row, roles_of, sort}
use taifa_exchange.Database.Tables.{PolicyRow, Tables}
use taifa_exchange.Policy.Model.{LookupInput, Policy, normalized}
use taifa_exchange.Policy.Repository.{
  list_policy_capabilities, list_policy_roles, policy_of, query_policy, find_by_route,
}
use taifa_exchange.Text.{Unicode}

abbrev roles_in : Pool → String → Tables → List String
roles_in pool id t = sort pool.collate (roles_of id t.roles)

abbrev capabilities_in : Pool → String → Tables → List String
capabilities_in pool id t = sort pool.collate (capabilities_of id t.capabilities)

abbrev pub row_policy : Pool → Tables → Option PolicyRow → Option Policy
row_policy pool t none = none
row_policy pool t (some r) = some (policy_of r (roles_in pool r.id t) (capabilities_in pool r.id t))

abbrev pub row_for : LookupInput → Tables → Option PolicyRow
row_for i t = find_policy_row i.target_system i.method i.route i.operation t.policies

Reads-roles :
    (pool : Pool) (id : String) (s : Session)
    → Reads (list_policy_roles pool id) (λ t. ok (roles_in pool id t)) s
unfolding list_policy_roles
Reads-roles pool id s =
    Reads-bind _ (λ t. ok tt) (λ _ t. ok (roles_in pool id t)) _ s
      (Reads-wrapping _ _ _ s (Reads-call (λ t. tt) s))
      (λ a. Reads-wrapping _ _ _ _ (Reads-call (roles_in pool id) _))

Reads-capabilities :
    (pool : Pool) (id : String) (s : Session)
    → Reads (list_policy_capabilities pool id) (λ t. ok (capabilities_in pool id t)) s
unfolding list_policy_capabilities
Reads-capabilities pool id s =
    Reads-bind _ (λ t. ok tt) (λ _ t. ok (capabilities_in pool id t)) _ s
      (Reads-wrapping _ _ _ s (Reads-call (λ t. tt) s))
      (λ a. Reads-wrapping _ _ _ _ (Reads-call (capabilities_in pool id) _))

abbrev row_or_missing : Option PolicyRow → Result PolicyRow
row_or_missing none = err policy_not_found
row_or_missing (some r) = ok r

query_policy-Reads :
    (i : LookupInput) (s : Session) → Reads (query_policy i) (λ t. row_or_missing (row_for i t)) s
unfolding query_policy call
query_policy-Reads i s = record {
  kept = ground arith;
  value = λ a h. ground arith;
  missing = λ e h k. ground arith;
  sound = λ h. (ground arith, ground arith);
}

module _ ⦃u : Unicode⦄ where
  -- The policy that the tables hold for a lookup: that of the first row with its four columns equal
  -- to the normalised lookup, with its roles and capabilities sorted.
  unfoldable pub stored_policy : Pool → LookupInput → Tables → Option Policy
  stored_policy pool input t = row_policy pool t (row_for (normalized input) t)

  abbrev pub found_or_missing : Option Policy → Result Policy
  found_or_missing none = err policy_not_found
  found_or_missing (some p) = ok p

  same_answer :
      (pool : Pool) (t : Tables) (o : Option PolicyRow)
      → (row_or_missing o >>=ᴿ λ r. ok (roles_in pool r.id t) >>=ᴿ λ roles.
          ok (capabilities_in pool r.id t) >>=ᴿ λ capabilities. ok (policy_of r roles capabilities))
        ≡ found_or_missing (row_policy pool t o)
  same_answer pool t none = refl
  same_answer pool t (some r) = refl

  -- FindByRoute of a repository with a pool changes no table, a policy that it returns is the one
  -- that the tables hold for the normal form of the lookup, ErrPolicyNotFound is reported only if
  -- there is none, and where no call fails it returns the policy or that error.
  pub find_by_route-Reads :
      (pool : Pool) (i : LookupInput) (s : Session)
      → Reads
          (find_by_route (some (some pool)) i)
          (λ t. found_or_missing (stored_policy pool i t))
          s
  unfolding find_by_route stored_policy
  find_by_route-Reads pool i s =
      subst (λ (f : Tables → Result Policy). Reads (find_by_route (some (some pool)) i) f s)
        (fun_ext (λ t. same_answer pool t (row_for (normalized i) t)))
        (Reads-bind _ (λ t. row_or_missing (row_for (normalized i) t))
          (λ r t. ok (roles_in pool r.id t) >>=ᴿ λ roles.
            ok (capabilities_in pool r.id t) >>=ᴿ λ capabilities.
            ok (policy_of r roles capabilities))
          _ s (query_policy-Reads (normalized i) s)
          (λ r.
            Reads-bind _ (λ t. ok (roles_in pool r.id t))
              (λ roles t. ok (capabilities_in pool r.id t) >>=ᴿ λ capabilities.
                ok (policy_of r roles capabilities))
              _ _ (Reads-roles pool r.id _)
              (λ roles.
                Reads-bind _ (λ t. ok (capabilities_in pool r.id t))
                  (λ capabilities t. ok (policy_of r roles capabilities)) _ _
                  (Reads-capabilities pool r.id _) (λ capabilities. Reads-pure _ _))))
