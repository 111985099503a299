-- ===== src/Engine/Commands/Unapply.antt =====
-- The command that rolls a migration back: migration-engine/core/src/commands/unapply_migration.rs.
use mathlib.Core.Option
use prisma_engines.Prelude.{
  String, Bool, false, not, ◌&&◌, Option, none, some, List, [], ◌∷◌, if◌then◌else◌,
}
use prisma_engines.Engine.Effects.{Effect, ◌>>=◌, pure, fail}
use prisma_engines.Engine.Migration.{Migration}
use prisma_engines.Engine.Steps.{catch}
use prisma_engines.Engine.Checks.{MigrationWarning, DestructiveChangeDiagnostics, has_warnings}
use prisma_engines.Engine.Connector.{MigrationConnector, CommandError}

pub record UnapplyMigrationInput : Type 0 where
  pub force : Option Bool

pub record UnapplyMigrationOutput : Type 0 where
  pub rolled_back : String
  pub active : Option String
  pub errors : List String
  pub warnings : List MigrationWarning

-- `Some(false)`: only an explicit refusal holds a rollback with warnings back.
unfoldable pub is_refused : Option Bool → Bool
is_refused (some force) = not force
is_refused none = false

module _ {World Failure Time Json DatabaseMigration Datamodel Problem : Type 0}
    (connector : MigrationConnector World Failure Time Json DatabaseMigration Datamodel)
    (input : UnapplyMigrationInput) where
  unfoldable pub deserialized : Json → Effect World (CommandError Failure Problem) DatabaseMigration
  deserialized json = elim (connector.deserialize_database_migration json) [
    | none ↦ fail CommandError.database_migration_format_changed
    | some database_migration ↦ pure database_migration
  ]

  unfoldable pub unapply_unless_refused :
      DestructiveChangeDiagnostics
      → Migration Time Json
      → DatabaseMigration
      → Effect World (CommandError Failure Problem) (Unit {0})
  unapply_unless_refused diagnostics migration database_migration =
      if has_warnings diagnostics && is_refused input.force
      then pure tt
      else catch CommandError.connector_error
          (connector.migration_applier.unapply migration database_migration)

  unfoldable pub roll_back :
      Migration Time Json → Effect World (CommandError Failure Problem) UnapplyMigrationOutput
  roll_back migration_to_rollback = do
    database_migration ← deserialized migration_to_rollback.database_migration
    warnings ←
        catch CommandError.connector_error
          (connector.destructive_changes_checker.check_unapply database_migration)
    unapplied ← unapply_unless_refused warnings migration_to_rollback database_migration
    new_active_migration ← catch CommandError.connector_error connector.migration_persistence.last
    pure (record {
      rolled_back = migration_to_rollback.name;
      active = Option.map (λ m. m.name) new_active_migration;
      errors = [];
      warnings = warnings.warnings;
    })

  -- The match on the last migration.
  unfoldable pub roll_back_last :
      Option (Migration Time Json)
      → Effect World (CommandError Failure Problem) UnapplyMigrationOutput
  roll_back_last none = pure (record {
    rolled_back = "not-applicable";
    active = none;
    errors = "There is no last migration that can be rolled back." ∷ [];
    warnings = [];
  })
  roll_back_last (some migration_to_rollback) = roll_back migration_to_rollback

  unfoldable pub execute : Effect World (CommandError Failure Problem) UnapplyMigrationOutput
  execute = do
    last_migration ← catch CommandError.connector_error connector.migration_persistence.last
    roll_back_last last_migration
