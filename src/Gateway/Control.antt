-- ===== src/Gateway/Control.antt =====
-- internal/gateway/control.go: the per-process controller of run and key caps.
pub mod State
pub mod Evict
pub mod Pause
pub mod Admit
pub mod Settle
pub mod Operator
pub mod Bound
pub mod Entry
pub mod Refusal
pub mod Modes
pub mod Outcome
pub mod Tally
pub mod Settings
pub mod Within
pub mod Trace
pub mod Rollover
pub mod Resume
pub mod Crossing
pub mod Status
mod Tests
