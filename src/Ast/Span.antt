-- ===== src/Ast/Span.antt =====
-- Positions in the schema's text, identifiers and comments:
-- libs/datamodel/core/src/ast/{span,identifier,comment}.rs. A `usize` is a plain number here.
use prisma_engines.Prelude.{ℕ, ◌+◌, String}

pub record Span : Type 0 where
  pub start : ℕ
  pub end : ℕ

abbrev pub Span_new : ℕ → ℕ → Span
Span_new start end = record { start = start; end = end }

abbrev pub Span_empty : Span
Span_empty = record { start = 0; end = 0 }

unfoldable pub lift_span : Span → ℕ → Span
lift_span span offset = record { start = offset + span.start; end = offset + span.end }

pub record Identifier : Type 0 where
  pub name : String
  pub span : Span

abbrev pub Identifier_new : String → Identifier
Identifier_new name = record { name = name; span = Span_empty }

pub record Comment : Type 0 where
  pub text : String
