-- ===== src/Gateway/Loop.antt =====
-- internal/gateway/loop.go, the report-only loop detector.
pub mod Detect
pub mod Repeat
pub mod History
pub mod Window
pub mod Bound
mod Tests
