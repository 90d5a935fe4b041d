-- ===== src/Gateway/Identity.antt =====
-- internal/gateway/identity.go, the run and agent of a request.
pub mod Headers
pub mod Trace
mod Tests
