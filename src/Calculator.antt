-- ===== src/Calculator.antt =====
-- The calculator, which applies migration steps to a schema:
-- migration-engine/core/src/migration/datamodel_calculator.rs.
pub mod Errors
pub mod Tops
pub mod Fields
pub mod Directives
pub mod Apply
pub mod Kinds
pub mod Unchanged
pub mod FramedRefs
pub mod Frame
pub mod Others
pub mod Undo
pub mod UndoField
pub mod OtherModels
