-- ===== src/Tests.antt =====
-- Concrete runs: the theorems at inputs where their hypotheses hold.
pub mod Fixtures
mod Policies
mod Authorizations
mod Handling
mod Platform
mod Settings
mod Running
mod History
mod Interleaving
