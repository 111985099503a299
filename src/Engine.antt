-- ===== src/Engine.antt =====
-- The state of the migration engine: the persisted migrations, the applier that runs the steps of a
-- database migration, and the commands:
-- migration-engine/connectors/migration-connector/src and migration-engine/core/src/commands.
pub mod Effects
pub mod Congruence
pub mod MigrationStatus
pub mod Migration
pub mod Persistence
pub mod Newest
pub mod Steps
pub mod Applier
pub mod InOrder
pub mod SqlInOrder
pub mod Diagram
pub mod Logged
pub mod Statuses
pub mod SqlSilent
pub mod Ended
pub mod ApplyEnds
pub mod ApplySettles
pub mod Progress
pub mod StatusCodes
pub mod Checks
pub mod Connector
pub mod Commands
