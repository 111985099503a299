-- ===== src/Engine/Commands/Stored.antt =====
-- The commands on the stored migrations: list_migrations.rs, migration_progress.rs and reset.rs of
-- migration-engine/core/src/commands, and migration-engine/core/src/migration_engine.rs.
use prisma_engines.Prelude.{
  ℕ, String, Option, none, some, List, [], ◌∷◌, length, Outcome, ok, err, panic,
}
use prisma_engines.Steps.{MigrationStep}
use prisma_engines.Engine.Effects.{Effect, ◌>>=◌, pure, fail, lift}
use prisma_engines.Engine.MigrationStatus.{MigrationStatus}
use prisma_engines.Engine.Migration.{Migration}
use prisma_engines.Engine.Steps.{catch}
use prisma_engines.Engine.Connector.{MigrationConnector, CommandError}

pub record ListMigrationsOutput (Json : Type 0) : Type 0 where
  pub id : String
  pub datamodel_steps : List MigrationStep
  pub database_steps : List Json
  pub status : MigrationStatus
  pub datamodel : String

pub record MigrationProgressInput : Type 0 where
  pub migration_id : String

pub record MigrationProgressOutput (Time : Type 0) : Type 0 where
  pub status : MigrationStatus
  pub steps : ℕ
  pub applied : ℕ
  pub rolled_back : ℕ
  pub errors : List String
  pub started_at : Time
  pub finished_at : Option Time

-- `collect` of results, with the entry in front.
abbrev pub collect_front : {E A : Type 0} → Outcome E A → Outcome E (List A) → Outcome E (List A)
collect_front (ok a) (ok rest) = ok (a ∷ rest)
collect_front (ok a) (err error) = err error
collect_front (ok a) panic = panic
collect_front (err error) _ = err error
collect_front panic _ = panic

module _ {World Failure Time Json DatabaseMigration Datamodel Problem : Type 0}
    (connector : MigrationConnector World Failure Time Json DatabaseMigration Datamodel) where
  unfoldable pub convert_migration_to_list_migration_steps_output :
      Migration Time Json → Outcome (CommandError Failure Problem) (ListMigrationsOutput Json)
  convert_migration_to_list_migration_steps_output migration =
      elim (connector.deserialize_database_migration migration.database_migration) [
        | none ↦ err CommandError.database_migration_format_changed
        | some database_migration ↦ elim (connector.render_steps_pretty database_migration) [
          | ok database_steps ↦ ok (record {
            id = migration.name;
            datamodel_steps = migration.datamodel_steps;
            database_steps = database_steps;
            status = migration.status;
            datamodel = migration.datamodel_string;
          })
          | err error ↦ err (CommandError.connector_error error)
          | panic ↦ panic
        ]
      ]

  unfoldable pub convert_all :
      List (Migration Time Json)
      → Outcome (CommandError Failure Problem) (List (ListMigrationsOutput Json))
  convert_all [] = ok []
  convert_all (migration ∷ migrations) =
      collect_front (convert_migration_to_list_migration_steps_output migration)
        (convert_all migrations)

  unfoldable pub list_migrations :
      Effect World (CommandError Failure Problem) (List (ListMigrationsOutput Json))
  list_migrations = do
    migrations ← catch CommandError.connector_error connector.migration_persistence.load_all
    lift (convert_all migrations)

  -- The error's message names the migration.
  unfoldable pub migration_progress :
      MigrationProgressInput
      → Effect World (CommandError Failure Problem) (MigrationProgressOutput Time)
  migration_progress input = do
    found ←
        catch CommandError.connector_error
          (connector.migration_persistence.by_name input.migration_id)
    elim found [
      | none ↦ fail (CommandError.input input.migration_id)
      | some migration ↦ pure (record {
        status = migration.status;
        steps = length migration.datamodel_steps;
        applied = migration.applied;
        rolled_back = migration.rolled_back;
        errors = migration.errors;
        started_at = migration.started_at;
        finished_at = migration.finished_at;
      })
    ]

  -- `json!({})` is left out.
  unfoldable pub reset : Effect World (CommandError Failure Problem) (Unit {0})
  reset = do
    dropped ← catch CommandError.connector_error connector.reset
    catch CommandError.connector_error connector.initialize
