-- ===== src/Engine/Migration.antt =====
-- The persisted migration, its status and the updates of it:
-- migration-engine/connectors/migration-connector/src/migration_persistence.rs. The time and the JSON
-- values of third-party crates are parameters.
use text.Mathlib.Text.{starts_with}
use prisma_engines.Prelude.{ℕ, String, Bool, Option, none, some, List, []}
use prisma_engines.Steps.{MigrationStep}
use prisma_engines.Engine.MigrationStatus.{MigrationStatus}

pub record Migration (Time Json : Type 0) : Type 0 where
  pub name : String
  pub revision : ℕ
  pub status : MigrationStatus
  pub applied : ℕ
  pub rolled_back : ℕ
  pub datamodel_string : String
  pub datamodel_steps : List MigrationStep
  pub database_migration : Json
  pub errors : List String
  pub started_at : Time
  pub finished_at : Option Time

pub record MigrationUpdateParams (Time : Type 0) : Type 0 where
  pub name : String
  pub new_name : String
  pub revision : ℕ
  pub status : MigrationStatus
  pub applied : ℕ
  pub rolled_back : ℕ
  pub errors : List String
  pub finished_at : Option Time

-- `IsWatchMigration` of a migration or of a command's input, by its name.
unfoldable pub is_watch_migration : String → Bool
is_watch_migration name = starts_with name "watch"

module _ {Time : Type 0} where
  -- The clock's time is passed in.
  unfoldable pub mark_as_finished : Time → MigrationUpdateParams Time → MigrationUpdateParams Time
  mark_as_finished now params = record params {
    status = MigrationStatus.migration_success;
    finished_at = some now;
  }

  module _ {Json : Type 0} where
    -- `braces` stands for the JSON text `"{}"`.
    unfoldable pub Migration_new : Json → Time → String → Migration Time Json
    Migration_new braces now name = record {
      name = name;
      revision = 0;
      status = MigrationStatus.pending;
      applied = 0;
      rolled_back = 0;
      datamodel_string = "";
      datamodel_steps = [];
      database_migration = braces;
      errors = [];
      started_at = now;
      finished_at = none;
    }

    unfoldable pub update_params : Migration Time Json → MigrationUpdateParams Time
    update_params migration = record {
      name = migration.name;
      new_name = migration.name;
      revision = migration.revision;
      status = migration.status;
      applied = migration.applied;
      rolled_back = migration.rolled_back;
      errors = migration.errors;
      finished_at = migration.finished_at;
    }
