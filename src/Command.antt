-- ===== src/Command.antt =====
-- cmd/: what the two commands do from their environment to their exit status. The texts that they
-- log are left out.
pub mod Serve
pub mod Seed
