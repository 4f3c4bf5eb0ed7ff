-- ===== src/Policy/Seed/Clash.antt =====
-- About internal/policy/seed.go, the ON CONFLICT clauses: the row for which an insert is skipped.
use taifa_exchange.Base.{In, List, [], arith, eq_iff, inl, inr, refl, true, ◌∷◌, ◌≡◌, ◌⊎◌}
use taifa_exchange.Database.Statements.{capability_conflict, policy_conflict, role_conflict}
use taifa_exchange.Database.Tables.{CapabilityRow, PolicyRow, RoleRow}
use taifa_exchange.Policy.Seed.{SeedPolicy, seed_row}

-- The row has the policy's identifier, or the four fields of its route.
abbrev pub Clashes : PolicyRow → SeedPolicy → Type 0
Clashes r p =
    (r.id ≡ p.id)
    ⊎ ((r.target_system ≡ p.target_system)
        × (r.method ≡ p.method)
        × (r.route_pattern ≡ p.route_pattern)
        × (r.operation ≡ p.operation))

policy_clash_cases :
    (q : SeedPolicy) (r : PolicyRow) (rs : List PolicyRow)
    → policy_conflict (seed_row q) (r ∷ rs) ≡ true
    → Clashes r q ⊎ (policy_conflict (seed_row q) rs ≡ true)
unfolding policy_conflict
policy_clash_cases q r rs h = ground (
  arith,
  eq_iff r.id q.id,
  eq_iff r.target_system q.target_system,
  eq_iff r.method q.method,
  eq_iff r.route_pattern q.route_pattern,
  eq_iff r.operation q.operation,
)

pub policy_clash :
    (q : SeedPolicy) (rs : List PolicyRow)
    → policy_conflict (seed_row q) rs ≡ true
    → (r : PolicyRow) × In r rs × Clashes r q
unfolding policy_conflict
policy_clash q [] h = cc
policy_clash q (r ∷ rs) h = elim (policy_clash_cases q r rs h) [
  | inl now ↦ (r, inl refl, now)
  | inr later ↦ let (x, i, c) = policy_clash q rs later in (x, inr i, c)
]

role_clash_cases :
    (q r : RoleRow) (rs : List RoleRow)
    → role_conflict q (r ∷ rs) ≡ true
    → ((r.id ≡ q.id) ⊎ ((r.policy_id ≡ q.policy_id) × (r.role ≡ q.role)))
      ⊎ (role_conflict q rs ≡ true)
unfolding role_conflict
role_clash_cases q r rs h =
    ground (arith, eq_iff r.id q.id, eq_iff r.policy_id q.policy_id, eq_iff r.role q.role)

pub role_clash :
    (q : RoleRow) (rs : List RoleRow)
    → role_conflict q rs ≡ true
    → (r : RoleRow) × In r rs × ((r.id ≡ q.id) ⊎ ((r.policy_id ≡ q.policy_id) × (r.role ≡ q.role)))
unfolding role_conflict
role_clash q [] h = cc
role_clash q (r ∷ rs) h = elim (role_clash_cases q r rs h) [
  | inl now ↦ (r, inl refl, now)
  | inr later ↦ let (x, i, c) = role_clash q rs later in (x, inr i, c)
]

capability_clash_cases :
    (q r : CapabilityRow) (rs : List CapabilityRow)
    → capability_conflict q (r ∷ rs) ≡ true
    → ((r.id ≡ q.id) ⊎ ((r.policy_id ≡ q.policy_id) × (r.capability ≡ q.capability)))
      ⊎ (capability_conflict q rs ≡ true)
unfolding capability_conflict
capability_clash_cases q r rs h =
    ground
      (arith, eq_iff r.id q.id, eq_iff r.policy_id q.policy_id, eq_iff r.capability q.capability)

pub capability_clash :
    (q : CapabilityRow) (rs : List CapabilityRow)
    → capability_conflict q rs ≡ true
    → (r : CapabilityRow) × In r rs
      × ((r.id ≡ q.id) ⊎ ((r.policy_id ≡ q.policy_id) × (r.capability ≡ q.capability)))
unfolding capability_conflict
capability_clash q [] h = cc
capability_clash q (r ∷ rs) h = elim (capability_clash_cases q r rs h) [
  | inl now ↦ (r, inl refl, now)
  | inr later ↦ let (x, i, c) = capability_clash q rs later in (x, inr i, c)
]
