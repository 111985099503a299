-- ===== src/Engine/Commands/Held.antt =====
-- A migration with warnings that the command does not apply:
-- migration-engine/core/src/commands/apply_migration.rs.
use prisma_engines.Prelude.{String, Bool, true, false, ◌≡◌, refl, Option, if◌then◌else◌, ok}
use prisma_engines.Ast.Expression.{Expression}
use prisma_engines.Ast.Schema.{SchemaAst, empty}
use prisma_engines.Calculator.Apply as Calculator
use prisma_engines.Engine.Effects.{Effect, fail, lift}
use prisma_engines.Engine.Congruence.{after-cong, after-caught}
use prisma_engines.Engine.Migration.{Migration}
use prisma_engines.Engine.Persistence.{last_non_watch_migration, migration_is_already_applied}
use prisma_engines.Engine.Steps.{catch}
use prisma_engines.Engine.Checks.{DestructiveChangeDiagnostics, has_warnings}
use prisma_engines.Engine.Connector.{
  MigrationApplier, DatamodelLibrary, MigrationConnector, CommandError, map_err,
}
use prisma_engines.Engine.Commands.Apply.{
  ApplyMigrationInput, is_forced, persisted, apply_unless_warned, handle_migration,
  handle_transition_out_of_watch_mode, handle_new_migration, handle_normal_migration,
  leaves_watch_mode, execute,
}

if_cong :
    {World Failure A : Type 0}
    → (x x' y y' : Effect World Failure A) → (test : Bool) → (world : World) → x world ≡ x' world
    → y world ≡ y' world
    → (if test then x else y) world ≡ (if test then x' else y') world
if_cong x x' y y' true world first second = first
if_cong x x' y y' false world first second = second

module _ {World Failure Time Json DatabaseMigration Datamodel : Type 0} where
  -- Wherever the check succeeds, it answers with a warning.
  abbrev pub AlwaysWarns :
      MigrationConnector World Failure Time Json DatabaseMigration Datamodel → Type 0
  AlwaysWarns connector =
      (migration : DatabaseMigration)
      → (world left : World) → (diagnostics : DestructiveChangeDiagnostics)
      → connector.destructive_changes_checker.check migration world ≡ (ok diagnostics, left)
      → has_warnings diagnostics ≡ true

  -- The connector with another way to create and to apply a migration.
  abbrev pub replaced :
      (Migration Time Json → Effect World Failure (Migration Time Json))
      → MigrationApplier World Failure Time Json DatabaseMigration
      → MigrationConnector World Failure Time Json DatabaseMigration Datamodel
      → MigrationConnector World Failure Time Json DatabaseMigration Datamodel
  replaced create applier connector = record connector {
    migration_persistence = record connector.migration_persistence { create = create };
    migration_applier = applier;
  }

module _ {World Failure Time Json DatabaseMigration Datamodel Problem : Type 0}
    (parse : String → Option Expression) (library : DatamodelLibrary Datamodel Problem)
    (now : World → Time) (braces : Json)
    (connector : MigrationConnector World Failure Time Json DatabaseMigration Datamodel)
    (warns : AlwaysWarns connector) (cmd : ApplyMigrationInput)
    (unforced : is_forced cmd.force ≡ false)
    (create : Migration Time Json → Effect World Failure (Migration Time Json))
    (applier : MigrationApplier World Failure Time Json DatabaseMigration) where
  handle_migration_lem :
      (current_datamodel : Datamodel)
      → (next_schema_ast : SchemaAst) → (world : World)
      → handle_migration parse library now braces connector cmd current_datamodel next_schema_ast
          world
        ≡ handle_migration parse library now braces
            (replaced create applier connector)
            cmd
            current_datamodel
            next_schema_ast
            world
  unfolding handle_migration catch apply_unless_warned
  handle_migration_lem current_datamodel next_schema_ast world =
      after-cong
        (lift (map_err CommandError.produced_bad_datamodel (library.lift_ast next_schema_ast))
          world)
        λ next_datamodel world.
          after-cong
            (catch CommandError.connector_error
              (connector.database_migration_inferrer.infer current_datamodel next_datamodel
                cmd.steps)
              world)
            λ database_migration world.
              after-cong
                (lift
                  (map_err CommandError.connector_error
                    (connector.render_steps_pretty database_migration))
                  world)
                λ database_steps world.
                  after-cong
                    (lift
                      (map_err CommandError.produced_bad_datamodel
                        (library.render_schema_ast_to_string next_schema_ast))
                      world)
                    λ datamodel_string world.
                      after-caught CommandError.connector_error
                        (connector.destructive_changes_checker.check database_migration world)
                        λ diagnostics left answer.
                          rw (warns database_migration world left diagnostics answer)
                            (rw unforced refl)

  handle_new_migration_lem :
      (world : World)
      → handle_new_migration parse library now braces connector cmd world
        ≡ handle_new_migration parse library now braces
            (replaced create applier connector)
            cmd
            world
  unfolding handle_new_migration
  handle_new_migration_lem world =
      after-cong (catch CommandError.connector_error connector.migration_persistence.last world)
        λ last_migration world.
          after-cong (lift (persisted library.parse_schema_ast empty last_migration) world)
            λ ast world.
              after-cong
                (lift (persisted library.parse_datamodel library.empty_datamodel last_migration)
                  world)
                λ datamodel world.
                  after-cong
                    (lift (map_err CommandError.generic (Calculator.apply parse ast cmd.steps))
                      world)
                    λ next world. handle_migration_lem datamodel next world

  handle_normal_migration_lem :
      (world : World)
      → handle_normal_migration parse library now braces connector cmd world
        ≡ handle_normal_migration parse library now braces
            (replaced create applier connector)
            cmd
            world
  unfolding handle_normal_migration migration_is_already_applied
  handle_normal_migration_lem world =
      after-cong
        (catch CommandError.connector_error
          (migration_is_already_applied connector.migration_persistence cmd.migration_id) world)
        λ already_applied world.
          if_cong (fail (CommandError.input cmd.migration_id))
            (fail (CommandError.input cmd.migration_id))
            (handle_new_migration parse library now braces connector cmd)
            (handle_new_migration parse library now braces (replaced create applier connector) cmd)
            already_applied world refl (handle_new_migration_lem world)

  handle_transition_lem :
      (world : World)
      → handle_transition_out_of_watch_mode parse library now braces connector cmd world
        ≡ handle_transition_out_of_watch_mode parse library now braces
            (replaced create applier connector)
            cmd
            world
  unfolding handle_transition_out_of_watch_mode last_non_watch_migration
  handle_transition_lem world =
      after-cong (catch CommandError.connector_error connector.migration_persistence.last world)
        λ last_migration world.
          after-cong
            (lift (persisted library.parse_datamodel library.empty_datamodel last_migration) world)
            λ datamodel world.
              after-cong
                (catch CommandError.connector_error
                  (last_non_watch_migration connector.migration_persistence) world)
                λ last_non_watch world.
                  after-cong (lift (persisted library.parse_schema_ast empty last_non_watch) world)
                    λ ast world.
                      after-cong
                        (lift (map_err CommandError.generic (Calculator.apply parse ast cmd.steps))
                          world)
                        λ next world. handle_migration_lem datamodel next world

  -- Where the checks of a connector, whenever they succeed, answer with a warning and the command
  -- is not forced, its outcome and the world it leaves do not depend on how the connector creates
  -- migrations and how it applies them.
  pub execute-replaced :
      (world : World)
      → execute parse library now braces connector cmd world
        ≡ execute parse library now braces (replaced create applier connector) cmd world
  unfolding execute leaves_watch_mode
  execute-replaced world =
      after-cong (catch CommandError.connector_error connector.migration_persistence.last world)
        λ last_migration world.
          if_cong (handle_transition_out_of_watch_mode parse library now braces connector cmd)
            (handle_transition_out_of_watch_mode parse library now braces
              (replaced create applier connector) cmd)
            (handle_normal_migration parse library now braces connector cmd)
            (handle_normal_migration parse library now braces (replaced create applier connector)
              cmd)
            (leaves_watch_mode parse library now braces connector cmd last_migration) world
            (handle_transition_lem world) (handle_normal_migration_lem world)
