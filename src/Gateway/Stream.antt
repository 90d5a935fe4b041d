-- ===== src/Gateway/Stream.antt =====
-- internal/gateway/stream.go, the usage of a streamed response.
pub mod Usage
pub mod Body
pub mod Lines
pub mod Chunks
mod Tests
