-- ===== src/Differ/Fields.antt =====
-- migration-engine/core/src/migration/datamodel_differ/fields.rs
use prisma_engines.Prelude.{List}
use prisma_engines.Ast.Node.{Directive, Field}
use prisma_engines.Differ.Pairs.{Pair, created, deleted, pairs}
use prisma_engines.Differ.Directives.{directives_match}

abbrev pub FieldDiffer : Type 0
FieldDiffer = Pair Field

unfoldable pub created_directives : FieldDiffer → List Directive
created_directives d = created directives_match d.previous.directives d.next.directives

unfoldable pub deleted_directives : FieldDiffer → List Directive
deleted_directives d = deleted directives_match d.previous.directives d.next.directives

unfoldable pub directive_pairs : FieldDiffer → List (Pair Directive)
directive_pairs d = pairs directives_match d.previous.directives d.next.directives
