-- ===== src/Policy/Seed/Keeps.antt =====
-- About internal/policy/seed.go, SeedCanonical: predicates on the tables that a seeding keeps.
use taifa_exchange.Audit.Outbox.{insert}
use taifa_exchange.Base.{Bool, List, Option, [], ◌∷◌, false, true, none, some, if◌then◌else◌, ◌+◌}
use taifa_exchange.Database.Keeps.{Keeps, Keeps-bind, Keeps-call, Keeps-in_tx}
use taifa_exchange.Database.Session.{Pool, call, wrapping}
use taifa_exchange.Database.Statements.{
  insert_capability, insert_outbox_row, insert_policy, insert_role,
}
use taifa_exchange.Database.Tables.{CapabilityRow, OutboxRow, PolicyRow, RoleRow, Tables}
use taifa_exchange.Ids.{Draw}
use taifa_exchange.Policy.Seed.{
  SeedPolicy, SeedPolicyCapability, SeedPolicyRole, SeedSummary, insert_seed_policy,
  insert_seed_policy_capability, insert_seed_policy_role, no_changes, record_seeded, seed_all,
  seed_capabilities, seed_policy, seed_roles, seed_with,
}
use taifa_exchange.Base.{All}
use taifa_exchange.Policy.Seed.{seed_row}
use taifa_exchange.Policy.Seed.Seeded.{capability_row, role_row}
use taifa_exchange.Text.{Unicode}

-- Kept by every INSERT statement of a seeding, whichever policies it is of.
pub record KeptBySeeds {ℓ} (P : Tables → Type ℓ) : Type ℓ where
  pub policy : (r : PolicyRow) (t : Tables) → P t → P (insert_policy r t).1
  pub role : (r : RoleRow) (t : Tables) → P t → P (insert_role r t).1
  pub capability : (r : CapabilityRow) (t : Tables) → P t → P (insert_capability r t).1
  pub outbox : (r : OutboxRow) (t : Tables) → P t → P (insert_outbox_row r t).1

-- Kept by the INSERT statements for one policy.
pub record KeptBySeed {ℓ} (P : Tables → Type ℓ) (p : SeedPolicy) : Type ℓ where
  pub policy : (t : Tables) → P t → P (insert_policy (seed_row p) t).1
  pub roles : All (λ x. (t : Tables) → P t → P (insert_role (role_row p x) t).1) p.required_roles
  pub capabilities :
      All
        (λ x. (t : Tables) → P t → P (insert_capability (capability_row p x) t).1)
        p.required_capabilities
  pub outbox : (r : OutboxRow) (t : Tables) → P t → P (insert_outbox_row r t).1

everywhere {ℓ} : {A : Type 0} {Q : A → Type ℓ} → ((x : A) → Q x) → (xs : List A) → All Q xs
everywhere f [] = tt
everywhere f (x ∷ xs) = (f x, everywhere f xs)

KeptBySeed-of {ℓ} :
    (P : Tables → Type ℓ) → KeptBySeeds P → (ps : List SeedPolicy) → All (KeptBySeed P) ps
KeptBySeed-of P kept ps =
    everywhere
      (λ p. record {
        policy = kept.policy (seed_row p);
        roles = everywhere (λ x. kept.role (role_row p x)) p.required_roles;
        capabilities =
            everywhere (λ x. kept.capability (capability_row p x)) p.required_capabilities;
        outbox = kept.outbox;
      })
      ps

module _ {ℓ} ⦃u : Unicode⦄ (P : Tables → Type ℓ) where
  insert_seed_policy-Keeps : (p : SeedPolicy) → KeptBySeed P p → Keeps P (insert_seed_policy p)
  unfolding insert_seed_policy
  insert_seed_policy-Keeps p kept = Keeps-call P (insert_policy _) kept.policy

  record_seeded-Keeps :
      (d : Draw) (p : SeedPolicy) (b : Bool) (m : SeedSummary)
      → KeptBySeed P p
      → Keeps P (record_seeded d p b m)
  unfolding record_seeded insert
  record_seeded-Keeps d p false m kept = λ s h. h
  record_seeded-Keeps d p true m kept =
      Keeps-bind P (wrapping "insert audit outbox event" (call (insert_outbox_row _))) _
        (Keeps-call P (insert_outbox_row _) (kept.outbox _)) (λ a s h. h)

  seed_roles-Keeps :
      (p : SeedPolicy) (xs : List SeedPolicyRole) (m : SeedSummary)
      → All (λ x. (t : Tables) → P t → P (insert_role (role_row p x) t).1) xs
      → Keeps P (seed_roles p.id xs m)
  unfolding seed_roles insert_seed_policy_role
  seed_roles-Keeps p [] m kept = λ s h. h
  seed_roles-Keeps p (x ∷ xs) m kept =
      Keeps-bind P (insert_seed_policy_role p.id x) _ (Keeps-call P (insert_role _) kept.0)
        (λ b. seed_roles-Keeps p xs (if b then record m { roles = m.roles + 1 } else m) kept.1)

  seed_capabilities-Keeps :
      (p : SeedPolicy) (xs : List SeedPolicyCapability) (m : SeedSummary)
      → All (λ x. (t : Tables) → P t → P (insert_capability (capability_row p x) t).1) xs
      → Keeps P (seed_capabilities p.id xs m)
  unfolding seed_capabilities insert_seed_policy_capability
  seed_capabilities-Keeps p [] m kept = λ s h. h
  seed_capabilities-Keeps p (x ∷ xs) m kept =
      Keeps-bind P (insert_seed_policy_capability p.id x) _
        (Keeps-call P (insert_capability _) kept.0)
        (λ b.
          seed_capabilities-Keeps p xs
            (if b then record m { capabilities = m.capabilities + 1 } else m) kept.1)

  seed_policy-Keeps :
      (d : Draw) (p : SeedPolicy) (m : SeedSummary) → KeptBySeed P p → Keeps P (seed_policy d p m)
  unfolding seed_policy
  seed_policy-Keeps d p m kept =
      Keeps-bind P (insert_seed_policy p) _ (insert_seed_policy-Keeps p kept) λ b.
        Keeps-bind P (record_seeded d p b m) _ (record_seeded-Keeps d p b m kept) λ m2.
          Keeps-bind P (seed_roles p.id p.required_roles m2) _
            (seed_roles-Keeps p p.required_roles m2 kept.roles)
            (λ m3. seed_capabilities-Keeps p p.required_capabilities m3 kept.capabilities)

  seed_all-Keeps :
      (draws : SeedPolicy → Draw) (ps : List SeedPolicy) (m : SeedSummary)
      → All (KeptBySeed P) ps
      → Keeps P (seed_all draws ps m)
  unfolding seed_all
  seed_all-Keeps draws [] m kept = λ s h. h
  seed_all-Keeps draws (p ∷ ps) m kept =
      Keeps-bind P (seed_policy (draws p) p m) _ (seed_policy-Keeps (draws p) p m kept.0)
        (λ m2. seed_all-Keeps draws ps m2 kept.1)

  -- A seeding keeps what the statements for its policies keep.
  pub seed_each-Keeps :
      (draws : SeedPolicy → Draw) (ps : List SeedPolicy) (seeder : Option (Option Pool))
      → All (KeptBySeed P) ps
      → Keeps P (seed_with draws ps seeder)
  unfolding seed_with
  seed_each-Keeps draws ps none kept = λ s h. h
  seed_each-Keeps draws ps (some none) kept = λ s h. h
  seed_each-Keeps draws ps (some (some pool)) kept =
      Keeps-in_tx P (some pool) (seed_all draws ps no_changes)
        (seed_all-Keeps draws ps no_changes kept)

  pub seed_with-Keeps :
      KeptBySeeds P
      → (draws : SeedPolicy → Draw) (ps : List SeedPolicy) (seeder : Option (Option Pool))
      → Keeps P (seed_with draws ps seeder)
  seed_with-Keeps kept draws ps seeder = seed_each-Keeps draws ps seeder (KeptBySeed-of P kept ps)
