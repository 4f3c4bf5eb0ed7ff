-- ===== src/Exchange.antt =====
-- internal/exchange: authorization of a request, its record and its HTTP handler.
pub mod Model
pub mod Request
pub mod Results
pub mod Repository
pub mod Service
pub mod Handler
