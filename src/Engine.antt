-- ===== src/Engine.antt =====
-- internal/engine.go: statements against the tables.
pub mod Rows
pub mod Query
