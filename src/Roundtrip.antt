-- ===== src/Roundtrip.antt =====
-- From the empty schema: the steps that migration-engine/core/src/migration/datamodel_differ.rs
-- infers, applied by datamodel_calculator.rs beside it; and the way back to the empty schema.
pub mod Rebuilt
pub mod Grow
pub mod Directives
pub mod Tops
pub mod Types
pub mod Sources
pub mod Enums
pub mod Models
pub mod Whole
pub mod RebuiltAlike
pub mod Settled
pub mod Names
pub mod EnumValues
pub mod Deletions
pub mod Erase
