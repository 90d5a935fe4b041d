-- ===== src/Ledger.antt =====
-- internal/ledger/event.go, the event of the ledger.
pub mod Event
pub mod Identify
