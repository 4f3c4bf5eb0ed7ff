-- ===== src/Taifaid.antt =====
-- internal/taifaid: the client of the identity service.
pub mod Dto
pub mod Client
