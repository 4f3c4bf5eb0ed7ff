-- ===== src/Policy/Seed/Stored.antt =====
-- About internal/policy/seed.go, SeedCanonical: which rows a seeding leaves in the tables.
use taifa_exchange.Base.{
  All, All-In, In, In-append_right, List, [], arith, inl, inr, map, map_All, subst, sym, ◌++◌, ◌∷◌,
  ◌≡◌, ◌⊎◌, Option,
}
use taifa_exchange.Apart.{In-append_left, In-map}
use taifa_exchange.Database.Statements.{
  insert_capability, insert_outbox_row, insert_policy, insert_role,
}
use taifa_exchange.Database.Tables.{CapabilityRow, OutboxRow, PolicyRow, RoleRow, Tables}
use taifa_exchange.Policy.Seed.{
  SeedPolicy, SeedPolicyCapability, SeedPolicyRole, seed_row, seed_with,
}
use taifa_exchange.Policy.Seed.Keeps.{KeptBySeed, seed_each-Keeps}
use taifa_exchange.Policy.Seed.Seeded.{capability_row, role_row}
use taifa_exchange.Database.Session.{Pool, Session}
use taifa_exchange.Ids.{Draw}
use taifa_exchange.Text.{Unicode}

-- The row that a policy is meant to have, field by field.
abbrev pub row_of : SeedPolicy → PolicyRow
row_of p = record {
  id = p.id;
  target_system = p.target_system;
  route_pattern = p.route_pattern;
  method = p.method;
  operation = p.operation;
  effect = p.effect;
  status = p.status;
  description = p.description;
}

abbrev pub role_rows : List SeedPolicy → List RoleRow
role_rows [] = []
role_rows (p ∷ ps) = map (role_row p) p.required_roles ++ role_rows ps

abbrev pub capability_rows : List SeedPolicy → List CapabilityRow
capability_rows [] = []
capability_rows (p ∷ ps) = map (capability_row p) p.required_capabilities ++ capability_rows ps

pub In-role_rows :
    (p : SeedPolicy) (ps : List SeedPolicy) (x : SeedPolicyRole)
    → In p ps
    → In x p.required_roles
    → In (role_row p x) (role_rows ps)
In-role_rows p [] x i j = absurd i
In-role_rows p (q ∷ qs) x (inl e) j =
    In-append_left (map (role_row q) q.required_roles) (role_rows qs) _ (
      subst (λ (z : SeedPolicy). In (role_row p x) (map (role_row z) z.required_roles)) (sym e)
        (In-map (role_row p) p.required_roles x j))
In-role_rows p (q ∷ qs) x (inr i) j =
    In-append_right (map (role_row q) q.required_roles) (role_rows qs) _ (In-role_rows p qs x i j)

pub In-capability_rows :
    (p : SeedPolicy) (ps : List SeedPolicy) (x : SeedPolicyCapability)
    → In p ps
    → In x p.required_capabilities
    → In (capability_row p x) (capability_rows ps)
In-capability_rows p [] x i j = absurd i
In-capability_rows p (q ∷ qs) x (inl e) j =
    In-append_left (map (capability_row q) q.required_capabilities) (capability_rows qs) _ (
      subst
        (λ (z : SeedPolicy).
          In (capability_row p x) (map (capability_row z) z.required_capabilities))
        (sym e) (In-map (capability_row p) p.required_capabilities x j))
In-capability_rows p (q ∷ qs) x (inr i) j =
    In-append_right (map (capability_row q) q.required_capabilities) (capability_rows qs) _
      (In-capability_rows p qs x i j)

-- What each statement leaves: the tables as they were, or with its row.
insert_policy_tables :
    (r : PolicyRow) (t : Tables)
    → ((insert_policy r t).1 ≡ t) ⊎ ((insert_policy r t).1 ≡ record t { policies = r ∷ t.policies })
unfolding insert_policy
insert_policy_tables r t = ground arith

insert_role_tables :
    (r : RoleRow) (t : Tables)
    → ((insert_role r t).1 ≡ t) ⊎ ((insert_role r t).1 ≡ record t { roles = r ∷ t.roles })
unfolding insert_role
insert_role_tables r t = ground arith

insert_capability_tables :
    (r : CapabilityRow) (t : Tables)
    → ((insert_capability r t).1 ≡ t)
      ⊎ ((insert_capability r t).1 ≡ record t { capabilities = r ∷ t.capabilities })
unfolding insert_capability
insert_capability_tables r t = ground arith

insert_outbox_row_tables :
    (r : OutboxRow) (t : Tables)
    → ((insert_outbox_row r t).1 ≡ t)
      ⊎ ((insert_outbox_row r t).1 ≡ record t { outbox = r ∷ t.outbox })
unfolding insert_outbox_row
insert_outbox_row_tables r t = ground arith

-- The rows of `t` were in `t₀`, or are those of the policies `ps`.
module _ (t₀ : Tables) (ps : List SeedPolicy) where
  pub record HasOrigin (t : Tables) : Type 0 where
    pub policies : All (λ r. In r t₀.policies ⊎ In r (map row_of ps)) t.policies
    pub roles : All (λ r. In r t₀.roles ⊎ In r (role_rows ps)) t.roles
    pub capabilities : All (λ r. In r t₀.capabilities ⊎ In r (capability_rows ps)) t.capabilities

  HasOrigin-start : HasOrigin t₀
  HasOrigin-start = record {
    policies = map_All (λ r i. inl i) t₀.policies (All-In t₀.policies);
    roles = map_All (λ r i. inl i) t₀.roles (All-In t₀.roles);
    capabilities = map_All (λ r i. inl i) t₀.capabilities (All-In t₀.capabilities);
  }

  policy-HasOrigin :
      (r : PolicyRow) (t : Tables)
      → In r (map row_of ps)
      → HasOrigin t
      → HasOrigin (insert_policy r t).1
  policy-HasOrigin r t i h = elim (insert_policy_tables r t) [
    | inl e ↦ subst HasOrigin (sym e) h
    | inr e ↦
        subst HasOrigin (sym e) (record {
          policies = (inr i, h.policies);
          roles = h.roles;
          capabilities = h.capabilities;
        })
  ]

  role-HasOrigin :
      (r : RoleRow) (t : Tables) → In r (role_rows ps) → HasOrigin t → HasOrigin (insert_role r t).1
  role-HasOrigin r t i h = elim (insert_role_tables r t) [
    | inl e ↦ subst HasOrigin (sym e) h
    | inr e ↦
        subst HasOrigin (sym e) (record {
          policies = h.policies;
          roles = (inr i, h.roles);
          capabilities = h.capabilities;
        })
  ]

  capability-HasOrigin :
      (r : CapabilityRow) (t : Tables)
      → In r (capability_rows ps)
      → HasOrigin t
      → HasOrigin (insert_capability r t).1
  capability-HasOrigin r t i h = elim (insert_capability_tables r t) [
    | inl e ↦ subst HasOrigin (sym e) h
    | inr e ↦
        subst HasOrigin (sym e) (record {
          policies = h.policies;
          roles = h.roles;
          capabilities = (inr i, h.capabilities);
        })
  ]

  outbox-HasOrigin :
      (r : OutboxRow) (t : Tables) → HasOrigin t → HasOrigin (insert_outbox_row r t).1
  outbox-HasOrigin r t h = elim (insert_outbox_row_tables r t) [
    | inl e ↦ subst HasOrigin (sym e) h
    | inr e ↦
        subst HasOrigin (sym e)
          (record { policies = h.policies; roles = h.roles; capabilities = h.capabilities })
  ]

  HasOrigin-KeptBySeed : (p : SeedPolicy) → In p ps → KeptBySeed HasOrigin p
  HasOrigin-KeptBySeed p i = record {
    policy = λ t. policy-HasOrigin (seed_row p) t (In-map row_of ps p i);
    roles =
        map_All (λ x j t. role-HasOrigin (role_row p x) t (In-role_rows p ps x i j))
          p.required_roles (All-In p.required_roles);
    capabilities =
        map_All
          (λ x j t. capability-HasOrigin (capability_row p x) t (In-capability_rows p ps x i j))
          p.required_capabilities (All-In p.required_capabilities);
    outbox = outbox-HasOrigin;
  }

  pub seed_with-HasOrigin :
      ⦃u : Unicode⦄ (draws : SeedPolicy → Draw) (seeder : Option (Option Pool)) (s : Session)
      → s.tables ≡ t₀
      → HasOrigin (seed_with draws ps seeder s).1.tables
  seed_with-HasOrigin draws seeder s same =
      seed_each-Keeps HasOrigin draws ps seeder (map_All HasOrigin-KeptBySeed ps (All-In ps)) s
        (subst HasOrigin (sym same) HasOrigin-start)
