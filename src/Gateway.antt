-- ===== src/Gateway.antt =====
-- internal/gateway: the proxy's control plane.
pub mod Control
pub mod Loop
pub mod Identity
pub mod Store
pub mod Resp
pub mod Shared
pub mod Stream
pub mod Handler
