-- ===== src/Policy.antt =====
-- internal/policy: the policy model, its evaluator, its repository, its service and its seeder.
pub mod Model
pub mod Normalize
pub mod Evaluator
pub mod Repository
pub mod Service
pub mod Seed
