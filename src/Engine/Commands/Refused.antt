-- ===== src/Engine/Commands/Refused.antt =====
-- A rollback with warnings that the command does not make:
-- migration-engine/core/src/commands/unapply_migration.rs.
use prisma_engines.Prelude.{◌≡◌, refl, true, false, Option, none, some, ok}
use prisma_engines.Engine.Congruence.{after-cong, after-caught}
use prisma_engines.Engine.Migration.{Migration}
use prisma_engines.Engine.Steps.{catch}
use prisma_engines.Engine.Checks.{DestructiveChangeDiagnostics, has_warnings}
use prisma_engines.Engine.Connector.{MigrationApplier, MigrationConnector, CommandError}
use prisma_engines.Engine.Commands.Unapply.{
  UnapplyMigrationInput, deserialized, is_refused, unapply_unless_refused, roll_back,
  roll_back_last, execute,
}

module _ {World Failure Time Json DatabaseMigration Datamodel : Type 0} where
  -- Wherever the check of a rollback succeeds, it answers with a warning.
  abbrev pub AlwaysWarnsBack :
      MigrationConnector World Failure Time Json DatabaseMigration Datamodel → Type 0
  AlwaysWarnsBack connector =
      (migration : DatabaseMigration)
      → (world left : World) → (diagnostics : DestructiveChangeDiagnostics)
      → connector.destructive_changes_checker.check_unapply migration world ≡ (ok diagnostics, left)
      → has_warnings diagnostics ≡ true

  -- The connector with another way to apply and to roll back a migration.
  abbrev pub with_applier :
      MigrationApplier World Failure Time Json DatabaseMigration
      → MigrationConnector World Failure Time Json DatabaseMigration Datamodel
      → MigrationConnector World Failure Time Json DatabaseMigration Datamodel
  with_applier applier connector = record connector { migration_applier = applier }

module _ {World Failure Time Json DatabaseMigration Datamodel Problem : Type 0}
    (connector : MigrationConnector World Failure Time Json DatabaseMigration Datamodel)
    (warns : AlwaysWarnsBack connector) (input : UnapplyMigrationInput)
    (refused : input.force ≡ some false)
    (applier : MigrationApplier World Failure Time Json DatabaseMigration) where
  roll_back-with_applier :
      (migration : Migration Time Json)
      → (world : World)
      → roll_back {Problem = Problem} connector input migration world
        ≡ roll_back (with_applier applier connector) input migration world
  unfolding roll_back catch unapply_unless_refused is_refused deserialized
  roll_back-with_applier migration world =
      after-cong (deserialized connector input migration.database_migration world)
        λ database_migration world.
          after-caught CommandError.connector_error
            (connector.destructive_changes_checker.check_unapply database_migration world)
            λ diagnostics left answer.
              rw (warns database_migration world left diagnostics answer) (rw refused refl)

  roll_back_last-with_applier :
      (last_migration : Option (Migration Time Json))
      → (world : World)
      → roll_back_last {Problem = Problem} connector input last_migration world
        ≡ roll_back_last (with_applier applier connector) input last_migration world
  unfolding roll_back_last
  roll_back_last-with_applier none world = refl
  roll_back_last-with_applier (some migration) world = roll_back-with_applier migration world

  -- Where the checks of rollbacks, whenever they succeed, answer with a warning and the command is
  -- told not to force them, its outcome and the world it leaves do not depend on how the connector
  -- applies migrations and rolls them back.
  pub execute-with_applier :
      (world : World)
      → execute {Problem = Problem} connector input world
        ≡ execute (with_applier applier connector) input world
  unfolding execute
  execute-with_applier world =
      after-cong (catch CommandError.connector_error connector.migration_persistence.last world)
        λ last_migration world. roll_back_last-with_applier last_migration world
