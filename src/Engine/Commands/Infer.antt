-- ===== src/Engine/Commands/Infer.antt =====
-- The command that infers the steps to a datamodel:
-- migration-engine/core/src/commands/infer_migration_steps.rs.
use prisma_engines.Prelude.{
  String, Bool, false, not, ◌&&◌, Option, none, some, List, [], ◌∷◌, ◌++◌, if◌then◌else◌,
}
use prisma_engines.Ast.Expression.{Expression}
use prisma_engines.Ast.Schema.{SchemaAst, empty}
use prisma_engines.Steps.{MigrationStep}
use prisma_engines.Calculator.Apply as Calculator
use prisma_engines.Differ.Diff as Differ
use prisma_engines.Engine.Effects.{Effect, ◌>>=◌, pure, fail, lift}
use prisma_engines.Engine.Migration.{Migration, is_watch_migration}
use prisma_engines.Engine.Persistence.{
  MigrationPersistence, last_non_watch_applied_migration, migration_is_already_applied,
}
use prisma_engines.Engine.Steps.{catch}
use prisma_engines.Engine.Connector.{
  DatamodelLibrary, MigrationConnector, CommandError, map_err, unwrapped,
}
use prisma_engines.Engine.Commands.Apply.{MigrationStepsResultOutput, persisted}

pub record AppliedMigration : Type 0 where
  pub migration_id : String
  pub datamodel_steps : List MigrationStep

pub record InferMigrationStepsInput : Type 0 where
  pub migration_id : String
  pub datamodel : String
  pub assume_to_be_applied : Option (List MigrationStep)
  pub assume_applied_migrations : Option (List AppliedMigration)

-- `flat_map(|migration| migration.datamodel_steps)`
unfoldable pub all_steps : List AppliedMigration → List MigrationStep
all_steps [] = []
all_steps (migration ∷ migrations) = migration.datamodel_steps ++ all_steps migrations

unfoldable pub assume_to_be_applied : InferMigrationStepsInput → List MigrationStep
assume_to_be_applied input = elim input.assume_to_be_applied [
  | some steps ↦ steps
  | none ↦ elim input.assume_applied_migrations [
    | some migrations ↦ all_steps migrations
    | none ↦ []
  ]
]

module _ {World Failure Time Json Problem : Type 0} (already_applied : String → Failure)
    (persistence : MigrationPersistence World Failure Time Json) where
  -- The loop over the migrations. `already_applied` makes the connector's error of a message.
  unfoldable pub validate_migrations :
      List AppliedMigration → Effect World (CommandError Failure Problem) (Unit {0})
  validate_migrations [] = pure tt
  validate_migrations (migration ∷ migrations) =
      let rest = validate_migrations migrations in
      do
        applied ←
            catch CommandError.connector_error
              (migration_is_already_applied persistence migration.migration_id)
        if applied
            then fail (CommandError.connector_error (already_applied migration.migration_id))
            else rest

  -- `if let Some(migrations)`
  unfoldable pub validate_given :
      Option (List AppliedMigration) → Effect World (CommandError Failure Problem) (Unit {0})
  validate_given none = pure tt
  validate_given (some migrations) = validate_migrations migrations

  unfoldable pub validate_assumed_migrations_are_not_applied :
      InferMigrationStepsInput → Effect World (CommandError Failure Problem) (Unit {0})
  validate_assumed_migrations_are_not_applied input = validate_given input.assume_applied_migrations

module _ {World Failure Time Json DatabaseMigration Datamodel Problem : Type 0}
    (parse : String → Option Expression) (library : DatamodelLibrary Datamodel Problem)
    (already_applied : String → Failure)
    (connector : MigrationConnector World Failure Time Json DatabaseMigration Datamodel)
    (input : InferMigrationStepsInput) where
  abbrev Inferring : Type 0 → Type 0
  Inferring A = Effect World (CommandError Failure Problem) A

  -- The steps since the last applied migration that is no watch migration.
  unfoldable pub steps_out_of_watch_mode :
      Datamodel → SchemaAst → Inferring (List MigrationStep × DatabaseMigration)
  steps_out_of_watch_mode next_datamodel next_datamodel_ast = do
    last_migration ←
        catch CommandError.connector_error
          (last_non_watch_applied_migration connector.migration_persistence)
    last_non_watch_datamodel_ast ← lift (persisted library.parse_schema_ast empty last_migration)
    last_non_watch_datamodel ←
        lift (persisted library.parse_datamodel library.empty_datamodel last_migration)
    let datamodel_steps = Differ.infer last_non_watch_datamodel_ast next_datamodel_ast
    full_database_migration ← catch CommandError.connector_error (
        connector.database_migration_inferrer.infer_from_datamodels last_non_watch_datamodel
          next_datamodel datamodel_steps)
    pure (datamodel_steps, full_database_migration)

  unfoldable pub leaves_watch_mode : Option (Migration Time Json) → Bool
  leaves_watch_mode none = false
  leaves_watch_mode (some last_migration) =
      not (is_watch_migration input.migration_id) && is_watch_migration last_migration.name

  unfoldable pub execute : Inferring (MigrationStepsResultOutput Json)
  execute = do
    valid ←
        validate_assumed_migrations_are_not_applied already_applied connector.migration_persistence
          input
    last_migration ← catch CommandError.connector_error connector.migration_persistence.last
    current_datamodel_ast ← lift (persisted library.parse_schema_ast empty last_migration)
    assumed_datamodel_ast ← lift (
        map_err CommandError.generic
          (Calculator.apply parse current_datamodel_ast (assume_to_be_applied input)))
    assumed_datamodel ←
        lift (map_err CommandError.produced_bad_datamodel (library.lift_ast assumed_datamodel_ast))
    next_datamodel ← lift (
        map_err
          (λ problem.
            CommandError.received_bad_datamodel
              (library.to_pretty_string problem "schema.prisma" input.datamodel))
          (library.parse_datamodel input.datamodel))
    next_datamodel_ast ← lift (
        map_err
          (λ problem. CommandError.input (library.to_pretty_string problem "" input.datamodel))
          (library.parse_schema_ast input.datamodel))
    let model_migration_steps = Differ.infer assumed_datamodel_ast next_datamodel_ast
    database_migration ← catch CommandError.connector_error (
        connector.database_migration_inferrer.infer assumed_datamodel next_datamodel
          model_migration_steps)
    diagnostics ←
        catch CommandError.connector_error
          (connector.destructive_changes_checker.check database_migration)
    returned ←
        (if leaves_watch_mode last_migration
          then steps_out_of_watch_mode next_datamodel next_datamodel_ast
          else pure (model_migration_steps, database_migration))
    database_steps ←
        lift (map_err CommandError.connector_error (connector.render_steps_pretty returned.1))
    datamodel ← lift (unwrapped (library.render_datamodel_to_string next_datamodel))
    pure (record {
      datamodel = datamodel;
      datamodel_steps = returned.0;
      database_steps = database_steps;
      warnings = diagnostics.warnings;
      errors = connector.check_database_version_compatibility next_datamodel;
      general_errors = [];
      unexecutable_migrations = diagnostics.unexecutable_migrations;
    })
