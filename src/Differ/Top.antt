-- ===== src/Differ/Top.antt =====
-- migration-engine/core/src/migration/datamodel_differ/top_level.rs
use mathlib.Core.List.{filter_map}
use prisma_engines.Prelude.{Bool, List, ◌==◌}
use prisma_engines.Ast.Node.{
  Field, Enum, Model, SourceConfig, as_model, as_enum, as_type_alias, as_source,
}
use prisma_engines.Ast.Schema.{SchemaAst}
use prisma_engines.Differ.Pairs.{Pair, created, deleted, pairs}

abbrev pub TopDiffer : Type 0
TopDiffer = Pair SchemaAst

unfoldable pub walk_sources : SchemaAst → List SourceConfig
walk_sources ast = filter_map as_source ast.tops

unfoldable pub sources_match : SourceConfig → SourceConfig → Bool
sources_match previous next = previous.name.name == next.name.name

unfoldable pub walk_enums : SchemaAst → List Enum
walk_enums ast = filter_map as_enum ast.tops

unfoldable pub enums_match : Enum → Enum → Bool
enums_match previous next = previous.name.name == next.name.name

unfoldable pub walk_models : SchemaAst → List Model
walk_models ast = filter_map as_model ast.tops

unfoldable pub models_match : Model → Model → Bool
models_match previous next = previous.name.name == next.name.name

unfoldable pub walk_type_aliases : SchemaAst → List Field
walk_type_aliases ast = filter_map as_type_alias ast.tops

unfoldable pub type_aliases_match : Field → Field → Bool
type_aliases_match previous next = previous.name.name == next.name.name

unfoldable pub model_pairs : TopDiffer → List (Pair Model)
model_pairs d = pairs models_match (walk_models d.previous) (walk_models d.next)

unfoldable pub created_models : TopDiffer → List Model
created_models d = created models_match (walk_models d.previous) (walk_models d.next)

unfoldable pub deleted_models : TopDiffer → List Model
deleted_models d = deleted models_match (walk_models d.previous) (walk_models d.next)

unfoldable pub updated_datasources : TopDiffer → List (Pair SourceConfig)
updated_datasources d = pairs sources_match (walk_sources d.previous) (walk_sources d.next)

unfoldable pub created_datasources : TopDiffer → List SourceConfig
created_datasources d = created sources_match (walk_sources d.previous) (walk_sources d.next)

-- The code has the two arguments of the test the other way round here.
unfoldable pub deleted_datasources : TopDiffer → List SourceConfig
deleted_datasources d =
    deleted (λ next previous. sources_match previous next) (walk_sources d.previous)
      (walk_sources d.next)

unfoldable pub enum_pairs : TopDiffer → List (Pair Enum)
enum_pairs d = pairs enums_match (walk_enums d.previous) (walk_enums d.next)

unfoldable pub created_enums : TopDiffer → List Enum
created_enums d = created enums_match (walk_enums d.previous) (walk_enums d.next)

unfoldable pub deleted_enums : TopDiffer → List Enum
deleted_enums d = deleted enums_match (walk_enums d.previous) (walk_enums d.next)

unfoldable pub created_type_aliases : TopDiffer → List Field
created_type_aliases d =
    created type_aliases_match (walk_type_aliases d.previous) (walk_type_aliases d.next)

unfoldable pub deleted_type_aliases : TopDiffer → List Field
deleted_type_aliases d =
    deleted type_aliases_match (walk_type_aliases d.previous) (walk_type_aliases d.next)

unfoldable pub type_alias_pairs : TopDiffer → List (Pair Field)
type_alias_pairs d =
    pairs type_aliases_match (walk_type_aliases d.previous) (walk_type_aliases d.next)
