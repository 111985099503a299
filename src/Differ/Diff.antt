-- ===== src/Differ/Diff.antt =====
-- `diff` of migration-engine/core/src/migration/datamodel_differ.rs, and its wrapper in
-- migration-engine/core/src/migration/datamodel_migration_steps_inferrer.rs.
use prisma_engines.Prelude.{List, ◌++◌}
use prisma_engines.Ast.Schema.{SchemaAst}
use prisma_engines.Steps.{MigrationStep}
use prisma_engines.Differ.Top.{TopDiffer}
use prisma_engines.Differ.PushTypes.{push_type_aliases, push_enums}
use prisma_engines.Differ.PushModels.{push_datasources, push_models}

unfoldable pub diff : SchemaAst → SchemaAst → List MigrationStep
diff previous next =
    push_type_aliases differ
    ++ (push_enums differ ++ (push_datasources differ ++ push_models differ))
  where
    differ : TopDiffer
    differ = record { previous = previous; next = next }

unfoldable pub infer : SchemaAst → SchemaAst → List MigrationStep
infer previous next = diff previous next
