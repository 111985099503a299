-- ===== src/Engine/Connector.antt =====
-- What the commands ask of a connector, and of the datamodel library, whose parser, lifting and
-- renderer are parameters: migration-engine/connectors/migration-connector/src/lib.rs and
-- migration-engine/core/src/commands/command.rs.
use prisma_engines.Prelude.{String, Option, List, Outcome, ok, err, panic}
use prisma_engines.Ast.Schema.{SchemaAst}
use prisma_engines.Steps.{MigrationStep}
use prisma_engines.Calculator.Errors.{CalculatorError}
use prisma_engines.Engine.Effects.{Effect}
use prisma_engines.Engine.Migration.{Migration}
use prisma_engines.Engine.Persistence.{MigrationPersistence}
use prisma_engines.Engine.Checks.{MigrationError, DestructiveChangesChecker}

module _ (World Failure Time Json DatabaseMigration : Type 0) where
  -- `MigrationApplier` of migration_applier.rs.
  pub record MigrationApplier : Type 0 where
    pub apply : Migration Time Json → DatabaseMigration → Effect World Failure (Unit {0})
    pub unapply : Migration Time Json → DatabaseMigration → Effect World Failure (Unit {0})

module _ (Datamodel Problem : Type 0) where
  -- The functions of the datamodel library that the commands call.
  pub record DatamodelLibrary : Type 0 where
    pub empty_datamodel : Datamodel
    pub lift_ast : SchemaAst → Outcome Problem Datamodel
    pub parse_datamodel : String → Outcome Problem Datamodel
    pub parse_schema_ast : String → Outcome Problem SchemaAst
    pub render_schema_ast_to_string : SchemaAst → Outcome Problem String
    pub render_datamodel_to_string : Datamodel → Outcome Problem String
    pub to_pretty_string : Problem → String → String → String

module _ (World Failure DatabaseMigration Datamodel : Type 0) where
  -- The trait of database_migration_inferrer.rs.
  pub record DatabaseMigrationInferrer : Type 0 where
    pub infer : Datamodel → Datamodel → List MigrationStep → Effect World Failure DatabaseMigration
    pub infer_from_datamodels :
        Datamodel → Datamodel → List MigrationStep → Effect World Failure DatabaseMigration

module _ (World Failure Time Json DatabaseMigration Datamodel : Type 0) where
  -- `MigrationConnector`, less `connector_type` and `create_database`, with the rendering of the step
  -- applier, of which the commands call nothing else. `none` of `deserialize_database_migration`
  -- says that the format has changed.
  pub record MigrationConnector : Type 0 where
    pub initialize : Effect World Failure (Unit {0})
    pub reset : Effect World Failure (Unit {0})
    pub check_database_version_compatibility : Datamodel → List MigrationError
    pub migration_persistence : MigrationPersistence World Failure Time Json
    pub database_migration_inferrer :
        DatabaseMigrationInferrer World Failure DatabaseMigration Datamodel
    pub render_steps_pretty : DatabaseMigration → Outcome Failure (List Json)
    pub destructive_changes_checker : DestructiveChangesChecker World Failure DatabaseMigration
    pub serialize : DatabaseMigration → Json
    pub deserialize_database_migration : Json → Option DatabaseMigration
    pub migration_applier : MigrationApplier World Failure Time Json DatabaseMigration

-- An error's payload that only a message shows is left out.
pub data CommandError (Failure Problem : Type 0) : Type 0 where
  database_migration_format_changed : CommandError Failure Problem
  received_bad_datamodel : String → CommandError Failure Problem
  produced_bad_datamodel : Problem → CommandError Failure Problem
  invalid_persisted_datamodel : Problem → String → CommandError Failure Problem
  datamodel_rendering_error : Problem → CommandError Failure Problem
  initialization_error : CommandError Failure Problem
  connector_error : Failure → CommandError Failure Problem
  generic : CalculatorError → CommandError Failure Problem
  input : String → CommandError Failure Problem

-- `map_err`, and the `unwrap` of a result.
abbrev pub map_err : {A E F : Type 0} → (E → F) → Outcome E A → Outcome F A
map_err f (ok a) = ok a
map_err f (err error) = err (f error)
map_err f panic = panic

abbrev pub unwrapped : {A E F : Type 0} → Outcome E A → Outcome F A
unwrapped (ok a) = ok a
unwrapped (err _) = panic
unwrapped panic = panic
