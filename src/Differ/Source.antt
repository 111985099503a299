-- ===== src/Differ/Source.antt =====
-- migration-engine/core/src/migration/datamodel_differ/source.rs
use prisma_engines.Prelude.{List}
use prisma_engines.Ast.Node.{Argument, SourceConfig}
use prisma_engines.Differ.Pairs.{Pair, created, deleted, pairs}
use prisma_engines.Differ.Directives.{arguments_match}

abbrev pub SourceArgumentsDiffer : Type 0
SourceArgumentsDiffer = Pair SourceConfig

unfoldable pub deleted_arguments : SourceArgumentsDiffer → List Argument
deleted_arguments d = deleted arguments_match d.previous.properties d.next.properties

unfoldable pub created_arguments : SourceArgumentsDiffer → List Argument
created_arguments d = created arguments_match d.previous.properties d.next.properties

unfoldable pub argument_pairs : SourceArgumentsDiffer → List (Pair Argument)
argument_pairs d = pairs arguments_match d.previous.properties d.next.properties
