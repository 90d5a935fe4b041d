-- ===== src/Owners.antt =====
-- internal/owners/owners.go, the mapping from a provider's ids to the customer's tags.
pub mod Mapping
pub mod Loading
pub mod Precedence
mod Tests
