-- ===== src/Gateway/Handler.antt =====
-- internal/gateway/gateway.go, the proxy's handling of a request, with internal/gateway/counter.go,
-- internal/gateway/admin.go, internal/gateway/recorder.go and internal/gateway/keyid.go.
pub mod Request
pub mod Budget
pub mod Row
pub mod Admin
pub mod Record
pub mod Serve
pub mod Ledger
pub mod Watch
pub mod Settled
pub mod Valid
pub mod Passing
pub mod Killed
pub mod Reached
pub mod Capped
mod Tests
