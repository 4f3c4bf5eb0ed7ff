-- ===== src/Parsing.antt =====
-- What internal/config/config.go uses of Go's strconv and time: ParseInt in base 10 and
-- ParseDuration.
pub mod Integer
pub mod Float
pub mod Units
pub mod Duration
