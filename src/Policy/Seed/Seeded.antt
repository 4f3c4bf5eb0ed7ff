-- ===== src/Policy/Seed/Seeded.antt =====
-- About the INSERT statements of internal/policy/seed.go, and what it is for a policy to be seeded.
use taifa_exchange.Base.{
  All, Bool, Bool-cases, List, ◌∷◌, ◌≡◌, arith, contains, refl, true, eq_refl, inl, inr, map_All,
}
use taifa_exchange.Database.Statements.{
  capability_conflict, insert_capability, insert_outbox_row, insert_policy, insert_role,
  policy_conflict, role_conflict, outbox_exists, policy_exists,
}
use taifa_exchange.Database.Tables.{
  CapabilityRow, OutboxRow, PolicyRow, RoleRow, Tables, capability_names, policy_row_ok, role_names,
}
use taifa_exchange.Outcome.{ok}
use taifa_exchange.Policy.Seed.{SeedPolicy, SeedPolicyCapability, SeedPolicyRole, seed_row}

-- What conflicts in the tables `t` also conflicts in `t'`.
pub record Extends (t t' : Tables) : Type 0 where
  pub policies :
      (r : PolicyRow) → policy_conflict r t.policies ≡ true → policy_conflict r t'.policies ≡ true
  pub roles : (r : RoleRow) → role_conflict r t.roles ≡ true → role_conflict r t'.roles ≡ true
  pub capabilities :
      (r : CapabilityRow)
      → capability_conflict r t.capabilities ≡ true
      → capability_conflict r t'.capabilities ≡ true

pub Extends-refl : (t : Tables) → Extends t t
Extends-refl t = record { policies = λ r h. h; roles = λ r h. h; capabilities = λ r h. h }

pub Extends-trans : (a b c : Tables) → Extends a b → Extends b c → Extends a c
Extends-trans a b c f g = record {
  policies = λ r h. g.policies r (f.policies r h);
  roles = λ r h. g.roles r (f.roles r h);
  capabilities = λ r h. g.capabilities r (f.capabilities r h);
}

abbrev pub role_row : SeedPolicy → SeedPolicyRole → RoleRow
role_row p x = record { id = x.id; policy_id = p.id; role = x.role }

abbrev pub capability_row : SeedPolicy → SeedPolicyCapability → CapabilityRow
capability_row p x = record { id = x.id; policy_id = p.id; capability = x.capability }

-- The insert of a row would be skipped.
abbrev pub PolicySkipped : Tables → PolicyRow → Type 0
PolicySkipped t r = (policy_row_ok r ≡ true) × (policy_conflict r t.policies ≡ true)

abbrev pub RoleSkipped : Tables → RoleRow → Type 0
RoleSkipped t r = (contains role_names r.role ≡ true) × (role_conflict r t.roles ≡ true)

abbrev pub CapabilitySkipped : Tables → CapabilityRow → Type 0
CapabilitySkipped t r =
    (contains capability_names r.capability ≡ true) × (capability_conflict r t.capabilities ≡ true)

-- Nothing of the policy is left to insert.
pub record Seeded (t : Tables) (p : SeedPolicy) : Type 0 where
  pub policy : PolicySkipped t (seed_row p)
  pub roles : All (λ x. RoleSkipped t (role_row p x)) p.required_roles
  pub capabilities : All (λ x. CapabilitySkipped t (capability_row p x)) p.required_capabilities

pub Seeded-Extends : (t t' : Tables) (p : SeedPolicy) → Extends t t' → Seeded t p → Seeded t' p
Seeded-Extends t t' p e s = record {
  policy = (s.policy.0, e.policies _ s.policy.1);
  roles = map_All (λ x h. (h.0, e.roles _ h.1)) p.required_roles s.roles;
  capabilities =
      map_All (λ x h. (h.0, e.capabilities _ h.1)) p.required_capabilities s.capabilities;
}

pub map_Seeded :
    (t t' : Tables) (ps : List SeedPolicy) → Extends t t' → All (Seeded t) ps → All (Seeded t') ps
map_Seeded t t' ps e h = map_All (λ p. Seeded-Extends t t' p e) ps h

pub map_RoleSkipped :
    (t t' : Tables) (p : SeedPolicy) (xs : List SeedPolicyRole)
    → Extends t t'
    → All (λ x. RoleSkipped t (role_row p x)) xs
    → All (λ x. RoleSkipped t' (role_row p x)) xs
map_RoleSkipped t t' p xs e h = map_All (λ x k. (k.0, e.roles _ k.1)) xs h

pub map_CapabilitySkipped :
    (t t' : Tables) (p : SeedPolicy) (xs : List SeedPolicyCapability)
    → Extends t t'
    → All (λ x. CapabilitySkipped t (capability_row p x)) xs
    → All (λ x. CapabilitySkipped t' (capability_row p x)) xs
map_CapabilitySkipped t t' p xs e h = map_All (λ x k. (k.0, e.capabilities _ k.1)) xs h

-- A row conflicts with itself, and with what a longer table has.
policy_conflict_self : (r : PolicyRow) (rs : List PolicyRow) → policy_conflict r (r ∷ rs) ≡ true
unfolding policy_conflict
policy_conflict_self r rs = rw (eq_refl r.id) refl

policy_conflict_later :
    (q r : PolicyRow) (rs : List PolicyRow)
    → policy_conflict r rs ≡ true
    → policy_conflict r (q ∷ rs) ≡ true
unfolding policy_conflict
policy_conflict_later q r rs h = ground arith

role_conflict_self : (r : RoleRow) (rs : List RoleRow) → role_conflict r (r ∷ rs) ≡ true
unfolding role_conflict
role_conflict_self r rs = rw (eq_refl r.id) refl

role_conflict_later :
    (q r : RoleRow) (rs : List RoleRow)
    → role_conflict r rs ≡ true
    → role_conflict r (q ∷ rs) ≡ true
unfolding role_conflict
role_conflict_later q r rs h = ground arith

capability_conflict_self :
    (r : CapabilityRow) (rs : List CapabilityRow) → capability_conflict r (r ∷ rs) ≡ true
unfolding capability_conflict
capability_conflict_self r rs = rw (eq_refl r.id) refl

capability_conflict_later :
    (q r : CapabilityRow) (rs : List CapabilityRow)
    → capability_conflict r rs ≡ true
    → capability_conflict r (q ∷ rs) ≡ true
unfolding capability_conflict
capability_conflict_later q r rs h = ground arith

-- A statement that succeeded has its row in the tables, and has taken none away.
pub insert_policy-ok :
    (r : PolicyRow) (t : Tables) (b : Bool)
    → (insert_policy r t).0 ≡ ok b
    → PolicySkipped (insert_policy r t).1 r × Extends t (insert_policy r t).1
unfolding insert_policy
insert_policy-ok r t b h = elim (Bool-cases (policy_row_ok r)) [
  | inr bad ↦ absurd (ground arith)
  | inl good ↦ elim (Bool-cases (policy_conflict r t.policies)) [
    | inl c ↦ rw good rw c ((refl, c), Extends-refl t)
    | inr c ↦ rw good rw c (
      (refl, policy_conflict_self r t.policies),
      record {
        policies = λ q k. policy_conflict_later r q t.policies k;
        roles = λ q k. k;
        capabilities = λ q k. k;
      },
    )
  ]
]

pub insert_role-ok :
    (r : RoleRow) (t : Tables) (b : Bool)
    → (insert_role r t).0 ≡ ok b
    → RoleSkipped (insert_role r t).1 r × Extends t (insert_role r t).1
unfolding insert_role
insert_role-ok r t b h = elim (Bool-cases (contains role_names r.role)) [
  | inr bad ↦ absurd (ground arith)
  | inl good ↦ elim (Bool-cases (role_conflict r t.roles)) [
    | inl c ↦ rw good rw c ((refl, c), Extends-refl t)
    | inr c ↦ elim (Bool-cases (policy_exists r.policy_id t.policies)) [
      | inr bad ↦ absurd (ground arith)
      | inl there ↦ rw good rw c rw there (
        (refl, role_conflict_self r t.roles),
        record {
          policies = λ q k. k;
          roles = λ q k. role_conflict_later r q t.roles k;
          capabilities = λ q k. k;
        },
      )
    ]
  ]
]

pub insert_capability-ok :
    (r : CapabilityRow) (t : Tables) (b : Bool)
    → (insert_capability r t).0 ≡ ok b
    → CapabilitySkipped (insert_capability r t).1 r × Extends t (insert_capability r t).1
unfolding insert_capability
insert_capability-ok r t b h = elim (Bool-cases (contains capability_names r.capability)) [
  | inr bad ↦ absurd (ground arith)
  | inl good ↦ elim (Bool-cases (capability_conflict r t.capabilities)) [
    | inl c ↦ rw good rw c ((refl, c), Extends-refl t)
    | inr c ↦ elim (Bool-cases (policy_exists r.policy_id t.policies)) [
      | inr bad ↦ absurd (ground arith)
      | inl there ↦ rw good rw c rw there (
        (refl, capability_conflict_self r t.capabilities),
        record {
          policies = λ q k. k;
          roles = λ q k. k;
          capabilities = λ q k. capability_conflict_later r q t.capabilities k;
        },
      )
    ]
  ]
]

pub insert_outbox_row-Extends : (r : OutboxRow) (t : Tables) → Extends t (insert_outbox_row r t).1
unfolding insert_outbox_row
insert_outbox_row-Extends r t = elim (Bool-cases (outbox_exists r.id t.outbox)) [
  | inl c ↦ rw c (Extends-refl t)
  | inr c ↦ rw c (record { policies = λ q k. k; roles = λ q k. k; capabilities = λ q k. k })
]
