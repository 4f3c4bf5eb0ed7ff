-- ===== src/Policy/Seed/Present.antt =====
-- About internal/policy/seed.go, SeedCanonical: the policies that are in the tables behind it.
use taifa_exchange.Apart.{In-map, apart, apart_unique, none_same}
use taifa_exchange.Base.{
  All, All-at, All-In, Bool, In, List, arith, eq_iff, inl, inr, map, map_All, refl, subst, true,
  ◌==◌, ◌≡◌, ◌⊎◌, ◌||◌,
}
use taifa_exchange.Database.Statements.{capability_conflict, role_conflict, same_route}
use taifa_exchange.Database.Tables.{CapabilityRow, PolicyRow, RoleRow, Tables}
use taifa_exchange.Policy.Seed.{SeedPolicy, SeedPolicyCapability, SeedPolicyRole}
use taifa_exchange.Policy.Seed.Canonical.{canonical_policies}
use taifa_exchange.Policy.Seed.Seeded.{Seeded, capability_row, role_row}
use taifa_exchange.Policy.Seed.Stored.{
  HasOrigin, In-capability_rows, In-role_rows, capability_rows, role_rows, row_of,
}
use taifa_exchange.Policy.Seed.Clash.{Clashes, capability_clash, policy_clash, role_clash}

-- A role, or a capability, of a policy.
abbrev pub HasRole : Tables → SeedPolicy → SeedPolicyRole → Type 0
HasRole t p x = (r : RoleRow) × In r t.roles × (r.policy_id ≡ p.id) × (r.role ≡ x.role)

abbrev pub HasCapability : Tables → SeedPolicy → SeedPolicyCapability → Type 0
HasCapability t p x =
    (r : CapabilityRow) × In r t.capabilities × (r.policy_id ≡ p.id) × (r.capability ≡ x.capability)

-- A policy in the tables `t` of a seeding that began with `t₀`: its row stands in them with all its
-- fields, unless a row that was there before clashes with it, and so do its roles and its
-- capabilities, unless a row that was there before has their identifier.
pub record IsPresent (t₀ t : Tables) (p : SeedPolicy) : Type 0 where
  pub policy : In (row_of p) t.policies ⊎ ((r : PolicyRow) × In r t₀.policies × Clashes r p)
  pub roles :
      All (λ x. HasRole t p x ⊎ ((r : RoleRow) × In r t₀.roles × (r.id ≡ x.id))) p.required_roles
  pub capabilities :
      All
        (λ x. HasCapability t p x ⊎ ((r : CapabilityRow) × In r t₀.capabilities × (r.id ≡ x.id)))
        p.required_capabilities

-- No two of the policies share an identifier or a route, and no two of their roles or of their
-- capabilities an identifier.
abbrev same_policy : PolicyRow → PolicyRow → Bool
same_policy a b = a.id == b.id || same_route a b

abbrev pub AreApart : List SeedPolicy → Type 0
AreApart ps =
    (apart same_policy (map row_of ps) ≡ true)
    × (apart (λ a b. a.id == b.id) (role_rows ps) ≡ true)
    × (apart (λ a b. a.id == b.id) (capability_rows ps) ≡ true)

pub canonical-AreApart : AreApart canonical_policies
unfolding apart none_same
canonical-AreApart = (refl, refl, refl)

module _ (t₀ t : Tables) (ps : List SeedPolicy) (origin : HasOrigin t₀ ps t)
    (distinct : AreApart ps) (p : SeedPolicy) (known : In p ps) (seeded : Seeded t p) where
  same_policy-Clashes : (r : PolicyRow) → Clashes r p → same_policy r (row_of p) ≡ true
  same_policy-Clashes r c = ground (
    arith,
    eq_iff r.id p.id,
    eq_iff r.target_system p.target_system,
    eq_iff r.method p.method,
    eq_iff r.route_pattern p.route_pattern,
    eq_iff r.operation p.operation,
  )

  present_policy : In (row_of p) t.policies ⊎ ((r : PolicyRow) × In r t₀.policies × Clashes r p)
  present_policy =
      let (r, i, c) = policy_clash p t.policies seeded.policy.1 in
      elim (All-at (λ x. In x t₀.policies ⊎ In x (map row_of ps)) t.policies r origin.policies i) [
        | inl old ↦ inr (r, old, c)
        | inr new ↦ inl (
            subst (λ (x : PolicyRow). In x t.policies)
              (apart_unique same_policy (map row_of ps) r (row_of p) distinct.0 new
                (In-map row_of ps p known) (same_policy-Clashes r c))
              i)
      ]

  present_role :
      (x : SeedPolicyRole)
      → In x p.required_roles
      → role_conflict (role_row p x) t.roles ≡ true
      → HasRole t p x ⊎ ((r : RoleRow) × In r t₀.roles × (r.id ≡ x.id))
  present_role x j h =
      let (r, i, c) = role_clash (role_row p x) t.roles h in
      elim c [
        | inr same ↦ inl (r, i, same.0, same.1)
        | inl same ↦
            elim (All-at (λ y. In y t₀.roles ⊎ In y (role_rows ps)) t.roles r origin.roles i) [
              | inl old ↦ inr (r, old, same)
              | inr new ↦
                  let e : r ≡ role_row p x =
                    apart_unique (λ a b. a.id == b.id) (role_rows ps) r (role_row p x) distinct.1
                      new (In-role_rows p ps x known j) ((eq_iff r.id x.id).1 same) in
                  inl (role_row p x, subst (λ (y : RoleRow). In y t.roles) e i, refl, refl)
            ]
      ]

  present_capability :
      (x : SeedPolicyCapability)
      → In x p.required_capabilities
      → capability_conflict (capability_row p x) t.capabilities ≡ true
      → HasCapability t p x ⊎ ((r : CapabilityRow) × In r t₀.capabilities × (r.id ≡ x.id))
  present_capability x j h =
      let (r, i, c) = capability_clash (capability_row p x) t.capabilities h in
      elim c [
        | inr same ↦ inl (r, i, same.0, same.1)
        | inl same ↦
            elim (All-at (λ y. In y t₀.capabilities ⊎ In y (capability_rows ps)) t.capabilities r
              origin.capabilities i) [
                | inl old ↦ inr (r, old, same)
                | inr new ↦
                    let e : r ≡ capability_row p x =
                      apart_unique (λ a b. a.id == b.id) (capability_rows ps) r (capability_row p x)
                        distinct.2 new (In-capability_rows p ps x known j)
                        ((eq_iff r.id x.id).1 same) in
                    inl (
                      capability_row p x,
                      subst (λ (y : CapabilityRow). In y t.capabilities) e i,
                      refl,
                      refl,
                    )
              ]
      ]

  pub present : IsPresent t₀ t p
  present = record {
    policy = present_policy;
    roles =
        map_All (λ x j. present_role x j (All-at _ p.required_roles x seeded.roles j).1)
          p.required_roles (All-In p.required_roles);
    capabilities =
        map_All
          (λ x j.
            present_capability x j (All-at _ p.required_capabilities x seeded.capabilities j).1)
          p.required_capabilities (All-In p.required_capabilities);
  }

-- Where nothing of the canonical policies is left to insert, they are present.
pub All-IsPresent :
    (t₀ t : Tables) (ps : List SeedPolicy)
    → HasOrigin t₀ ps t
    → AreApart ps
    → All (Seeded t) ps
    → All (IsPresent t₀ t) ps
All-IsPresent t₀ t ps origin distinct seeded =
    map_All (λ p i. present t₀ t ps origin distinct p i (All-at (Seeded t) ps p seeded i)) ps
      (All-In ps)
