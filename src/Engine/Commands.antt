-- ===== src/Engine/Commands.antt =====
-- The commands of the migration engine: migration-engine/core/src/commands.
pub mod Apply
pub mod Unapply
pub mod Infer
pub mod Calculate
pub mod Stored
pub mod Suffix
pub mod Validated
pub mod Held
pub mod Refused
