-- ===== src/Pricing.antt =====
-- internal/pricing/pricing.go, the price table and the cost of metered tokens.
pub mod Table
pub mod Price
pub mod Tokens
pub mod Charge
mod Tests
