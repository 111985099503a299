-- ===== src/Ast.antt =====
-- The AST of a Prisma schema: libs/datamodel/core/src/ast.
pub mod Span
pub mod Expression
pub mod Lifted
pub mod Render
pub mod Node
pub mod Kind
pub mod Schema
