-- ===== src/Policy/Seed.antt =====
-- internal/policy/seed.go
pub mod Canonical
pub mod Seeded
pub mod Steps
pub mod Keeps
pub mod Stored
pub mod Clash
pub mod Present
pub mod Laws
use taifa_exchange.Database.Session.{◌>>=◌, ◌>>◌, Db, Pool, call, in_tx, pure, raise, wrapping}
use taifa_exchange.Audit.Event.{
  Event, action_create_policy, event_policy_seeded, resource_exchange_policy, result_success,
  source_taifa_exchange,
}
use taifa_exchange.Audit.Outbox.{in_transaction, insert}
use taifa_exchange.Base.{
  Bool, List, Option, String, [], false, if◌then◌else◌, map, some, true, ℕ, ◌+◌, ◌∷◌,
}
use taifa_exchange.Database.Statements.{insert_capability, insert_policy, insert_role}
use taifa_exchange.Database.Tables.{PolicyRow, text, texts}
use taifa_exchange.Ids.{Draw}
use taifa_exchange.Outcome.{plain}
use taifa_exchange.Text.{Unicode}

pub record SeedPolicyRole : Type 0 where
  pub id : String
  pub role : String

pub record SeedPolicyCapability : Type 0 where
  pub id : String
  pub capability : String

pub record SeedPolicy : Type 0 where
  pub id : String
  pub target_system : String
  pub route_pattern : String
  pub method : String
  pub operation : String
  pub effect : String
  pub status : String
  pub description : String
  pub required_roles : List SeedPolicyRole
  pub required_capabilities : List SeedPolicyCapability

pub record SeedSummary : Type 0 where
  pub policies : ℕ
  pub roles : ℕ
  pub capabilities : ℕ
  pub audit_events : ℕ

abbrev pub no_changes : SeedSummary
no_changes = record { policies = 0; roles = 0; capabilities = 0; audit_events = 0 }

abbrev pub seed_row : SeedPolicy → PolicyRow
seed_row p = record {
  id = p.id;
  target_system = p.target_system;
  route_pattern = p.route_pattern;
  method = p.method;
  operation = p.operation;
  effect = p.effect;
  status = p.status;
  description = p.description;
}

-- `tag.RowsAffected() > 0`
unfoldable pub insert_seed_policy : SeedPolicy → Db Bool
insert_seed_policy seed =
    wrapping "insert seed exchange policy" (call (insert_policy (seed_row seed)))

unfoldable pub insert_seed_policy_role : String → SeedPolicyRole → Db Bool
insert_seed_policy_role policy_id role =
    wrapping "insert seed exchange policy role"
      (call (insert_role (record { id = role.id; policy_id = policy_id; role = role.role })))

unfoldable pub insert_seed_policy_capability : String → SeedPolicyCapability → Db Bool
insert_seed_policy_capability policy_id capability =
    wrapping "insert seed exchange policy capability" (
      call (
        insert_capability (record {
          id = capability.id;
          policy_id = policy_id;
          capability = capability.capability;
        })))

unfoldable pub policy_seeded_audit_event : Draw → SeedPolicy → Event
policy_seeded_audit_event d seed = record {
  id = "";
  event_type = event_policy_seeded;
  source_system = source_taifa_exchange;
  subject_id = "";
  actor_id = "";
  resource_type = resource_exchange_policy;
  resource_id = seed.id;
  action = action_create_policy;
  result = result_success;
  correlation_id = "";
  payload = some (
      ("policy_id", text seed.id)
      ∷ ("target_system", text seed.target_system)
      ∷ ("route_pattern", text seed.route_pattern)
      ∷ ("method", text seed.method)
      ∷ ("operation", text seed.operation)
      ∷ ("effect", text seed.effect)
      ∷ ("status", text seed.status)
      ∷ ("required_roles", texts (some (map (λ r. r.role) seed.required_roles)))
      ∷ ("required_capabilities", texts (some (map (λ c. c.capability) seed.required_capabilities)))
      ∷ ("description", text seed.description)
      ∷ []);
  created_at = d.now;
}

-- `policy.NewSeeder`
abbrev pub new_seeder : Option Pool → Option (Option Pool)
new_seeder pool = some pool

-- The loops over the roles and the capabilities of a policy, with the summary so far.
unfoldable pub seed_roles : String → List SeedPolicyRole → SeedSummary → Db SeedSummary
seed_roles policy_id [] summary = pure summary
seed_roles policy_id (role ∷ roles) summary = do
  inserted ← insert_seed_policy_role policy_id role
  seed_roles policy_id roles
      (if inserted then record summary { roles = summary.roles + 1 } else summary)

unfoldable pub seed_capabilities : String → List SeedPolicyCapability → SeedSummary → Db SeedSummary
seed_capabilities policy_id [] summary = pure summary
seed_capabilities policy_id (capability ∷ capabilities) summary = do
  inserted ← insert_seed_policy_capability policy_id capability
  seed_capabilities policy_id capabilities
      (if inserted then record summary { capabilities = summary.capabilities + 1 } else summary)

module _ ⦃u : Unicode⦄ where
  -- `if insertedPolicy { … }`: the audit event of a policy that is new. The clock and the random
  -- bytes of the event are a draw.
  unfoldable pub record_seeded : Draw → SeedPolicy → Bool → SeedSummary → Db SeedSummary
  record_seeded d seed false summary = pure summary
  record_seeded d seed true summary = do
    insert d (some in_transaction) (policy_seeded_audit_event d seed)
    pure (record summary {
      policies = summary.policies + 1;
      audit_events = summary.audit_events + 1;
    })

  -- One round of the loop over the policies.
  unfoldable pub seed_policy : Draw → SeedPolicy → SeedSummary → Db SeedSummary
  seed_policy d seed summary = do
    inserted ← insert_seed_policy seed
    with_event ← record_seeded d seed inserted summary
    with_roles ← seed_roles seed.id seed.required_roles with_event
    seed_capabilities seed.id seed.required_capabilities with_roles

  unfoldable pub seed_all : (SeedPolicy → Draw) → List SeedPolicy → SeedSummary → Db SeedSummary
  seed_all draws [] summary = pure summary
  seed_all draws (seed ∷ seeds) summary = do
    next ← seed_policy (draws seed) seed summary
    seed_all draws seeds next

  -- `Seeder.SeedCanonical`, over the list of policies; a seeder holds a pool, and either can be nil.
  unfoldable pub seed_with :
      (SeedPolicy → Draw) → List SeedPolicy → Option (Option Pool) → Db SeedSummary
  seed_with draws seeds (some (some pool)) = in_tx (some pool) (seed_all draws seeds no_changes)
  seed_with draws seeds _ = raise (plain "policy seeder is not configured")
