-- ===== src/Httpserver.antt =====
-- internal/platform/httpserver: responses, the middleware and the order in which it wraps a handler.
pub mod Writer
pub mod Middleware
pub mod Server
