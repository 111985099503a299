-- ===== src/Differ/EnumValues.antt =====
-- migration-engine/core/src/migration/datamodel_differ/enum_values.rs
use prisma_engines.Prelude.{Bool, not, List, ◌==◌, any, filter}
use prisma_engines.Ast.Node.{Directive, EnumValue}
use prisma_engines.Differ.Pairs.{Pair, pairs}

abbrev pub EnumValueDiffer : Type 0
EnumValueDiffer = Pair EnumValue

unfoldable pub enum_value_directives_match : Directive → Directive → Bool
enum_value_directives_match previous next = previous.name.name == next.name.name

unfoldable pub directive_pairs : EnumValueDiffer → List (Pair Directive)
directive_pairs d = pairs enum_value_directives_match d.previous.directives d.next.directives

unfoldable pub created_directives : EnumValueDiffer → List Directive
created_directives d =
    filter
      (λ next.
        not (any (λ previous. enum_value_directives_match previous next) d.previous.directives))
      d.next.directives

unfoldable pub deleted_directives : EnumValueDiffer → List Directive
deleted_directives d =
    filter
      (λ previous. not (any (λ next. enum_value_directives_match previous next) d.next.directives))
      d.previous.directives
