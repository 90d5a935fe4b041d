-- ===== src/Report.antt =====
-- internal/report/report.go, the totals over ledger events.
pub mod Rows
pub mod Coverage
pub mod Days
pub mod Totals
pub mod Lines
pub mod Build
pub mod Finish
pub mod Sums
pub mod Tables
mod Tests
