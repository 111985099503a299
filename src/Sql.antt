-- ===== src/Sql.antt =====
-- The SQL migration connector: the schema differ, the steps and their corrections:
-- migration-engine/connectors/sql-migration-connector/src.
pub mod Schema
pub mod Steps
pub mod Differ
pub mod Expand
pub mod Sqlite
pub mod Infer
pub mod Reflexive
pub mod SelfPairs
pub mod IdleTable
pub mod Idle
pub mod Catalog
pub mod TableNames
pub mod EnumNames
pub mod Refines
pub mod Phases
pub mod InPlace
pub mod Settled
pub mod Expansions
pub mod Twins
pub mod Inferred
pub mod Answers
pub mod Fixable
pub mod Total
