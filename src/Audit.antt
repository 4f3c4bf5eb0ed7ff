-- ===== src/Audit.antt =====
-- internal/audit: events and their insertion into the outbox.
pub mod Event
pub mod Outbox
