-- ===== src/Workbench.antt =====
-- internal/workbench: the migration sessions, their status and their store.
pub mod Status
pub mod Session
pub mod Store
