-- ===== src/Gateway/Store.antt =====
-- internal/gateway/counter_redis.go, the scripts that the shared store runs.
pub mod Records
pub mod Admit
pub mod Settle
pub mod Operator
pub mod Once
pub mod Within
pub mod Settled
pub mod Trace
pub mod Replay
mod Tests
