-- ===== src/Export.antt =====
-- internal/csvsafe/csvsafe.go, internal/focus/focus.go and internal/statement/statement.go, the
-- exported CSV files.
pub mod Field
pub mod Focus
pub mod Statement
pub mod Records
mod Tests
