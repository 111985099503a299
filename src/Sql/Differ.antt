-- ===== src/Sql/Differ.antt =====
-- The differ of two SQL schemas:
-- migration-engine/connectors/sql-migration-connector/src/sql_schema_differ.rs.
pub mod Column
pub mod Table
pub mod Changes
pub mod Diff
