-- ===== src/Differ.antt =====
-- The differ, which infers the migration steps between two schemas:
-- migration-engine/core/src/migration/datamodel_differ.rs and the files below it.
pub mod Pairs
pub mod Alike
pub mod AlikePairs
pub mod AlikeParts
pub mod AlikeEntries
pub mod Idle
pub mod Repeated
pub mod RenameParts
pub mod Renames
pub mod Directives
pub mod Fields
pub mod EnumValues
pub mod Enums
pub mod Models
pub mod Source
pub mod Top
pub mod Push
pub mod PushTypes
pub mod PushModels
pub mod Diff
