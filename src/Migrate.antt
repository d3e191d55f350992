-- ===== src/Migrate.antt =====
-- internal/migrate and internal/model: the decisions of a migration that need no connection.
pub mod Scope
pub mod Compare
