-- ===== src/Gateway/Resp.antt =====
-- internal/gateway/resp.go, the wire protocol of the shared store.
pub mod Value
pub mod Number
pub mod Wire
pub mod Fuel
pub mod RoundTrip
pub mod Client
pub mod Pool
pub mod Slots
mod Tests
