-- ===== src/Engine/Commands/Apply.antt =====
-- The command that applies a migration: migration-engine/core/src/commands/apply_migration.rs.
use prisma_engines.Prelude.{
  String, Bool, false, not, ◌&&◌, Option, none, some, List, [], if◌then◌else◌, Outcome, ok,
}
use prisma_engines.Ast.Expression.{Expression}
use prisma_engines.Ast.Schema.{SchemaAst, empty}
use prisma_engines.Steps.{MigrationStep}
use prisma_engines.Calculator.Apply as Calculator
use prisma_engines.Engine.Effects.{Effect, ◌>>=◌, pure, fail, lift}
use prisma_engines.Engine.Migration.{Migration, Migration_new, is_watch_migration}
use prisma_engines.Engine.Persistence.{last_non_watch_migration, migration_is_already_applied}
use prisma_engines.Engine.Steps.{catch}
use prisma_engines.Engine.Checks.{
  DestructiveChangeDiagnostics, MigrationWarning, MigrationError, UnexecutableMigration,
  has_warnings,
}
use prisma_engines.Engine.Connector.{
  DatamodelLibrary, MigrationConnector, CommandError, map_err, unwrapped,
}

pub record ApplyMigrationInput : Type 0 where
  pub migration_id : String
  pub steps : List MigrationStep
  pub force : Option Bool

pub record MigrationStepsResultOutput (Json : Type 0) : Type 0 where
  pub datamodel : String
  pub datamodel_steps : List MigrationStep
  pub database_steps : List Json
  pub warnings : List MigrationWarning
  pub errors : List MigrationError
  pub general_errors : List String
  pub unexecutable_migrations : List UnexecutableMigration

-- `force.unwrap_or(false)`
unfoldable pub is_forced : Option Bool → Bool
is_forced none = false
is_forced (some force) = force

-- What a persisted migration has, or the empty one.
unfoldable pub persisted :
    {Failure Problem Time Json A : Type 0}
    → (String → Outcome Problem A)
    → A
    → Option (Migration Time Json)
    → Outcome (CommandError Failure Problem) A
persisted parse nothing none = ok nothing
persisted parse nothing (some migration) =
    map_err (λ problem. CommandError.invalid_persisted_datamodel problem migration.datamodel_string)
      (parse migration.datamodel_string)

module _ {World Failure Time Json DatabaseMigration Datamodel Problem : Type 0}
    (parse : String → Option Expression) (library : DatamodelLibrary Datamodel Problem)
    (now : World → Time) (braces : Json)
    (connector : MigrationConnector World Failure Time Json DatabaseMigration Datamodel)
    (cmd : ApplyMigrationInput) where
  abbrev pub Commanded : Type 0 → Type 0
  Commanded A = Effect World (CommandError Failure Problem) A

  -- Without warnings, or if it is forced, the migration is created and applied.
  unfoldable pub apply_unless_warned :
      DestructiveChangeDiagnostics → Migration Time Json → DatabaseMigration → Commanded (Unit {0})
  apply_unless_warned diagnostics migration database_migration =
      if has_warnings diagnostics && not (is_forced cmd.force) then pure tt else do
        saved_migration ←
            catch CommandError.connector_error (connector.migration_persistence.create migration)
        catch CommandError.connector_error
            (connector.migration_applier.apply saved_migration database_migration)

  unfoldable pub handle_migration :
      Datamodel → SchemaAst → Commanded (MigrationStepsResultOutput Json)
  handle_migration current_datamodel next_schema_ast = do
    next_datamodel ←
        lift (map_err CommandError.produced_bad_datamodel (library.lift_ast next_schema_ast))
    database_migration ←
        catch CommandError.connector_error
          (connector.database_migration_inferrer.infer current_datamodel next_datamodel cmd.steps)
    database_steps ←
        lift
          (map_err CommandError.connector_error (connector.render_steps_pretty database_migration))
    started_at ← λ world. pure (now world) world
    datamodel_string ← lift (
        map_err CommandError.produced_bad_datamodel
          (library.render_schema_ast_to_string next_schema_ast))
    diagnostics ←
        catch CommandError.connector_error
          (connector.destructive_changes_checker.check database_migration)
    applied ←
        apply_unless_warned diagnostics
          (record (Migration_new braces started_at cmd.migration_id) {
            datamodel_steps = cmd.steps;
            database_migration = connector.serialize database_migration;
            datamodel_string = datamodel_string;
          })
          database_migration
    datamodel ← lift (unwrapped (library.render_datamodel_to_string next_datamodel))
    pure (record {
      datamodel = datamodel;
      datamodel_steps = cmd.steps;
      database_steps = database_steps;
      warnings = diagnostics.warnings;
      errors = diagnostics.errors;
      general_errors = [];
      unexecutable_migrations = diagnostics.unexecutable_migrations;
    })

  unfoldable pub handle_transition_out_of_watch_mode : Commanded (MigrationStepsResultOutput Json)
  handle_transition_out_of_watch_mode = do
    last_migration ← catch CommandError.connector_error connector.migration_persistence.last
    current_datamodel ←
        lift (persisted library.parse_datamodel library.empty_datamodel last_migration)
    last_non_watch ←
        catch CommandError.connector_error
          (last_non_watch_migration connector.migration_persistence)
    last_non_watch_datamodel ← lift (persisted library.parse_schema_ast empty last_non_watch)
    next_datamodel_ast ←
        lift
          (map_err CommandError.generic (Calculator.apply parse last_non_watch_datamodel cmd.steps))
    handle_migration current_datamodel next_datamodel_ast

  unfoldable pub handle_new_migration : Commanded (MigrationStepsResultOutput Json)
  handle_new_migration = do
    last_migration ← catch CommandError.connector_error connector.migration_persistence.last
    current_datamodel_ast ← lift (persisted library.parse_schema_ast empty last_migration)
    current_datamodel ←
        lift (persisted library.parse_datamodel library.empty_datamodel last_migration)
    next_datamodel_ast ←
        lift (map_err CommandError.generic (Calculator.apply parse current_datamodel_ast cmd.steps))
    handle_migration current_datamodel next_datamodel_ast

  -- The error's message names the migration.
  unfoldable pub handle_normal_migration : Commanded (MigrationStepsResultOutput Json)
  handle_normal_migration = do
    already_applied ←
        catch CommandError.connector_error
          (migration_is_already_applied connector.migration_persistence cmd.migration_id)
    if already_applied then fail (CommandError.input cmd.migration_id) else handle_new_migration

  unfoldable pub leaves_watch_mode : Option (Migration Time Json) → Bool
  leaves_watch_mode none = false
  leaves_watch_mode (some last_migration) =
      is_watch_migration last_migration.name && not (is_watch_migration cmd.migration_id)

  unfoldable pub execute : Commanded (MigrationStepsResultOutput Json)
  execute = do
    last_migration ← catch CommandError.connector_error connector.migration_persistence.last
    if leaves_watch_mode last_migration
        then handle_transition_out_of_watch_mode
        else handle_normal_migration
