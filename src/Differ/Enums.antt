-- ===== src/Differ/Enums.antt =====
-- migration-engine/core/src/migration/datamodel_differ/enums.rs
use prisma_engines.Prelude.{Bool, List, ◌==◌}
use prisma_engines.Ast.Node.{Directive, EnumValue, Enum}
use prisma_engines.Differ.Pairs.{Pair, created, deleted, pairs}

abbrev pub EnumDiffer : Type 0
EnumDiffer = Pair Enum

unfoldable pub values_match : EnumValue → EnumValue → Bool
values_match previous next = previous.name.name == next.name.name

unfoldable pub enum_directives_match : Directive → Directive → Bool
enum_directives_match previous next = previous.name.name == next.name.name

unfoldable pub value_pairs : EnumDiffer → List (Pair EnumValue)
value_pairs d = pairs values_match d.previous.values d.next.values

unfoldable pub created_values : EnumDiffer → List EnumValue
created_values d = created values_match d.previous.values d.next.values

unfoldable pub deleted_values : EnumDiffer → List EnumValue
deleted_values d = deleted values_match d.previous.values d.next.values

unfoldable pub created_directives : EnumDiffer → List Directive
created_directives d = created enum_directives_match d.previous.directives d.next.directives

unfoldable pub deleted_directives : EnumDiffer → List Directive
deleted_directives d = deleted enum_directives_match d.previous.directives d.next.directives

unfoldable pub directive_pairs : EnumDiffer → List (Pair Directive)
directive_pairs d = pairs enum_directives_match d.previous.directives d.next.directives
