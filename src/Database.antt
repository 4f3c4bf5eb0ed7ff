-- ===== src/Database.antt =====
-- The tables of migrations/ and the calls that reach them: a session with the server, in which any
-- call can fail, and internal/platform/postgres/tx.go.
pub mod Tables
pub mod Statements
pub mod Session
pub mod Atomic
pub mod Reads
pub mod Quiet
pub mod Keeps
pub mod Driver
