-- ===== src/Policy/Seed/Steps.antt =====
-- About internal/policy/seed.go: its INSERT statements and its loops over roles and capabilities.
use taifa_exchange.Database.Session.{Session, call, wrapping}
use taifa_exchange.Base.{
  All, Bool, List, String, [], ◌∷◌, ◌≡◌, ◌∙◌, ap, false, refl, subst, sym, if◌then◌else◌, ◌+◌,
}
use taifa_exchange.Database.Atomic.{call-ok, continue-ok, wrapping-ok}
use taifa_exchange.Database.Quiet.{call_quiet}
use taifa_exchange.Database.Statements.{insert_capability, insert_policy, insert_role}
use taifa_exchange.Database.Tables.{Tables}
use taifa_exchange.Outcome.{Result, ok}
use taifa_exchange.Policy.Seed.{
  SeedPolicy, SeedPolicyCapability, SeedPolicyRole, SeedSummary, insert_seed_policy,
  insert_seed_policy_capability, insert_seed_policy_role, seed_capabilities, seed_roles, seed_row,
}
use taifa_exchange.Policy.Seed.Seeded.{
  CapabilitySkipped, Extends, PolicySkipped, RoleSkipped, capability_row, Extends-refl,
  Extends-trans, insert_capability-ok, insert_policy-ok, insert_role-ok, role_row,
}

-- A call that succeeded, for what its statement guarantees.
pub after_call {ℓ κ} :
    {A : Type ℓ} (P : Tables → Type κ) (message : String) (work : Tables → Result A × Tables)
    (s : Session) (a : A)
    → (wrapping message (call work) s).0 ≡ ok a
    → ((work s.tables).0 ≡ ok a → P (work s.tables).1)
    → P (wrapping message (call work) s).1.tables
after_call P message work s a h f =
    let done = call-ok work s a (wrapping-ok message (call work) s a h) in
    subst P (sym done.1) (f done.0)

insert_seed_policy_role-ok :
    (p : SeedPolicy) (y : SeedPolicyRole) (s : Session) (b : Bool)
    → (insert_seed_policy_role p.id y s).0 ≡ ok b
    → RoleSkipped (insert_seed_policy_role p.id y s).1.tables (role_row p y)
      × Extends s.tables (insert_seed_policy_role p.id y s).1.tables
unfolding insert_seed_policy_role
insert_seed_policy_role-ok p y s b h =
    after_call (λ t. RoleSkipped t (role_row p y) × Extends s.tables t) _
      (insert_role (role_row p y)) s b h (insert_role-ok (role_row p y) s.tables b)

pub seed_roles-ok :
    (p : SeedPolicy) (xs : List SeedPolicyRole) (m x : SeedSummary) (s : Session)
    → (seed_roles p.id xs m s).0 ≡ ok x
    → All (λ y. RoleSkipped (seed_roles p.id xs m s).1.tables (role_row p y)) xs
      × Extends s.tables (seed_roles p.id xs m s).1.tables
unfolding seed_roles
seed_roles-ok p [] m x s h = (tt, Extends-refl s.tables)
seed_roles-ok p (y ∷ ys) m x s h =
    let first = insert_seed_policy_role p.id y s in
    let rest =
      λ (b : Bool). seed_roles p.id ys (if b then record m { roles = m.roles + 1 } else m) in
    let (b, inserted, run) = continue-ok first.0 rest first.1 x h in
    let (one, grown) = insert_seed_policy_role-ok p y s b inserted in
    let (others, more) =
      seed_roles-ok p ys (if b then record m { roles = m.roles + 1 } else m) x first.1
        (ap (λ (z : Result SeedSummary × Session). z.0) (sym run) ∙ h) in
    subst
      (λ (z : Result SeedSummary × Session).
        All (λ y. RoleSkipped z.1.tables (role_row p y)) (y ∷ ys) × Extends s.tables z.1.tables)
      (sym run) (((one.0, more.roles _ one.1), others), Extends-trans _ _ _ grown more)

insert_seed_policy_capability-ok :
    (p : SeedPolicy) (y : SeedPolicyCapability) (s : Session) (b : Bool)
    → (insert_seed_policy_capability p.id y s).0 ≡ ok b
    → CapabilitySkipped (insert_seed_policy_capability p.id y s).1.tables (capability_row p y)
      × Extends s.tables (insert_seed_policy_capability p.id y s).1.tables
unfolding insert_seed_policy_capability
insert_seed_policy_capability-ok p y s b h =
    after_call (λ t. CapabilitySkipped t (capability_row p y) × Extends s.tables t) _
      (insert_capability (capability_row p y)) s b h
      (insert_capability-ok (capability_row p y) s.tables b)

pub seed_capabilities-ok :
    (p : SeedPolicy) (xs : List SeedPolicyCapability) (m x : SeedSummary) (s : Session)
    → (seed_capabilities p.id xs m s).0 ≡ ok x
    → All (λ y. CapabilitySkipped (seed_capabilities p.id xs m s).1.tables (capability_row p y)) xs
      × Extends s.tables (seed_capabilities p.id xs m s).1.tables
unfolding seed_capabilities
seed_capabilities-ok p [] m x s h = (tt, Extends-refl s.tables)
seed_capabilities-ok p (y ∷ ys) m x s h =
    let first = insert_seed_policy_capability p.id y s in
    let rest = λ (b : Bool).
      seed_capabilities p.id ys (if b then record m { capabilities = m.capabilities + 1 } else m) in
    let (b, inserted, run) = continue-ok first.0 rest first.1 x h in
    let (one, grown) = insert_seed_policy_capability-ok p y s b inserted in
    let (others, more) =
      seed_capabilities-ok p ys (if b then record m { capabilities = m.capabilities + 1 } else m) x
        first.1 (ap (λ (z : Result SeedSummary × Session). z.0) (sym run) ∙ h) in
    subst
      (λ (z : Result SeedSummary × Session).
        All (λ y. CapabilitySkipped z.1.tables (capability_row p y)) (y ∷ ys)
        × Extends s.tables z.1.tables)
      (sym run) (((one.0, more.capabilities _ one.1), others), Extends-trans _ _ _ grown more)

pub insert_seed_policy-ok :
    (p : SeedPolicy) (s : Session) (b : Bool)
    → (insert_seed_policy p s).0 ≡ ok b
    → PolicySkipped (insert_seed_policy p s).1.tables (seed_row p)
      × Extends s.tables (insert_seed_policy p s).1.tables
unfolding insert_seed_policy
insert_seed_policy-ok p s b h =
    after_call (λ t. PolicySkipped t (seed_row p) × Extends s.tables t) _
      (insert_policy (seed_row p)) s b h (insert_policy-ok (seed_row p) s.tables b)

insert_seed_policy_role_skipped :
    (p : SeedPolicy) (y : SeedPolicyRole) (s : Session)
    → s.faults ≡ []
    → RoleSkipped s.tables (role_row p y)
    → insert_seed_policy_role p.id y s ≡ (ok false, s)
unfolding insert_seed_policy_role insert_role
insert_seed_policy_role_skipped p y s q h =
    rw (call_quiet (insert_role (role_row p y)) s q) rw h.0 rw h.1 refl

pub seed_roles_skipped :
    (p : SeedPolicy) (xs : List SeedPolicyRole) (m : SeedSummary) (s : Session)
    → s.faults ≡ []
    → All (λ y. RoleSkipped s.tables (role_row p y)) xs
    → seed_roles p.id xs m s ≡ (ok m, s)
unfolding seed_roles
seed_roles_skipped p [] m s q h = refl
seed_roles_skipped p (y ∷ ys) m s q h =
    rw (insert_seed_policy_role_skipped p y s q h.0) (seed_roles_skipped p ys m s q h.1)

insert_seed_policy_capability_skipped :
    (p : SeedPolicy) (y : SeedPolicyCapability) (s : Session)
    → s.faults ≡ []
    → CapabilitySkipped s.tables (capability_row p y)
    → insert_seed_policy_capability p.id y s ≡ (ok false, s)
unfolding insert_seed_policy_capability insert_capability
insert_seed_policy_capability_skipped p y s q h =
    rw (call_quiet (insert_capability (capability_row p y)) s q) rw h.0 rw h.1 refl

pub seed_capabilities_skipped :
    (p : SeedPolicy) (xs : List SeedPolicyCapability) (m : SeedSummary) (s : Session)
    → s.faults ≡ []
    → All (λ y. CapabilitySkipped s.tables (capability_row p y)) xs
    → seed_capabilities p.id xs m s ≡ (ok m, s)
unfolding seed_capabilities
seed_capabilities_skipped p [] m s q h = refl
seed_capabilities_skipped p (y ∷ ys) m s q h =
    rw (insert_seed_policy_capability_skipped p y s q h.0)
      (seed_capabilities_skipped p ys m s q h.1)

pub insert_seed_policy_skipped :
    (p : SeedPolicy) (s : Session)
    → s.faults ≡ []
    → PolicySkipped s.tables (seed_row p)
    → insert_seed_policy p s ≡ (ok false, s)
unfolding insert_seed_policy insert_policy
insert_seed_policy_skipped p s q h =
    rw (call_quiet (insert_policy (seed_row p)) s q) rw h.0 rw h.1 refl
