-- ===== src/Gateway/Shared.antt =====
-- internal/gateway/counter_redis.go, the counter that replicas share through a store.
pub mod Date
pub mod State
pub mod Reasons
pub mod Fallback
pub mod Deliver
pub mod Recover
pub mod Calls
pub mod Asked
pub mod Untouched
pub mod Queue
pub mod Fifo
pub mod Gap
pub mod Codes
pub mod Kill
pub mod Words
pub mod Owing
pub mod Status
mod Tests
