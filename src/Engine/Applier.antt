-- ===== src/Engine/Applier.antt =====
-- `MigrationApplierImpl` of migration-engine/connectors/migration-connector/src/migration_applier.rs.
-- A loop has fuel, and `none` means that the fuel ran out.
use mathlib.Core.Option
use prisma_engines.Prelude.{
  ℕ, zero, suc, ◌+◌, String, true, false, Option, none, some, [], ◌∷◌, if◌then◌else◌, Outcome, ok,
  err, panic, Bool,
}
use prisma_engines.Engine.Effects.{Effect, after, fail}
use prisma_engines.Engine.MigrationStatus
use prisma_engines.Engine.Migration.{
  Migration, MigrationUpdateParams, mark_as_finished, update_params,
}
use prisma_engines.Engine.Persistence.{MigrationPersistence}
use prisma_engines.Engine.Steps.{DatabaseMigrationStepApplier}

-- What a loop returns, with the parameters that it has changed.
abbrev pub Ran : Type 0 → Type 0 → Type 0 → Type 0
Ran World Failure Time = Outcome Failure (Unit {0}) × MigrationUpdateParams Time × World

abbrev pub count_applied : {Time : Type 0} → MigrationUpdateParams Time → MigrationUpdateParams Time
count_applied params = record params { applied = params.applied + 1 }

abbrev pub count_rolled_back :
    {Time : Type 0} → MigrationUpdateParams Time → MigrationUpdateParams Time
count_rolled_back params = record params { rolled_back = params.rolled_back + 1 }

module _ {World Failure Time : Type 0} where
  module _ (update : MigrationUpdateParams Time → Effect World Failure (Unit {0}))
      (count : MigrationUpdateParams Time → MigrationUpdateParams Time) where
    -- The end of the loop's body: the update of the counted progress, and the next round.
    abbrev pub updated :
        (MigrationUpdateParams Time → World → Option (Ran World Failure Time))
        → MigrationUpdateParams Time
        → Outcome Failure (Unit {0}) × World
        → Option (Ran World Failure Time)
    updated next params (ok _, world) = next params world
    updated next params (err error, world) = some (err error, params, world)
    updated next params (panic, world) = some (panic, params, world)

    -- The test of the loop, and its body.
    abbrev pub tested :
        (MigrationUpdateParams Time → World → Option (Ran World Failure Time))
        → MigrationUpdateParams Time
        → Outcome Failure Bool × World
        → Option (Ran World Failure Time)
    tested next params (ok true, world) = updated next (count params) (update (count params) world)
    tested next params (ok false, world) = some (ok tt, params, world)
    tested next params (err error, world) = some (err error, params, world)
    tested next params (panic, world) = some (panic, params, world)

    -- The `while` loop that `go_forward` and `go_backward` have, from a step on.
    unfoldable pub run_steps :
        (ℕ → Effect World Failure Bool)
        → ℕ
        → ℕ
        → MigrationUpdateParams Time
        → World
        → Option (Ran World Failure Time)
    run_steps run zero step params world = none
    run_steps run (suc fuel) step params world =
        tested (run_steps run fuel (step + 1)) params (run step world)

  -- A loop that starts if the first update succeeds.
  abbrev pub when_updated :
      (World → Option (Ran World Failure Time))
      → (Ran World Failure Time → Outcome Failure (Unit {0}) × World)
      → Outcome Failure (Unit {0}) × World
      → Option (Outcome Failure (Unit {0}) × World)
  when_updated loop finish (ok _, world) = Option.map finish (loop world)
  when_updated loop finish (err error, world) = some (err error, world)
  when_updated loop finish (panic, world) = some (panic, world)

  module _ {Json DatabaseMigration : Type 0}
      (persistence : MigrationPersistence World Failure Time Json)
      (step_applier : DatabaseMigrationStepApplier World Failure DatabaseMigration) where
    unfoldable pub go_forward :
        ℕ → DatabaseMigration → MigrationUpdateParams Time → World → Option (Ran World Failure Time)
    go_forward fuel database_migration params world =
        run_steps persistence.update count_applied (step_applier.apply_step database_migration) fuel
          0 params world

    unfoldable pub go_backward :
        ℕ → DatabaseMigration → MigrationUpdateParams Time → World → Option (Ran World Failure Time)
    go_backward fuel database_migration params world =
        run_steps persistence.update count_rolled_back
          (step_applier.unapply_step database_migration) fuel 0 params world

  module _ {Json : Type 0} (persistence : MigrationPersistence World Failure Time Json)
      (now : World → Time) (debug_text : Failure → String) where
    -- The last updates of `apply` and of `unapply`, by the loop's result.
    unfoldable pub finish_apply : Ran World Failure Time → Outcome Failure (Unit {0}) × World
    finish_apply (ok _, params, world) =
        persistence.update (mark_as_finished (now world) params) world
    finish_apply (err error, params, world) =
        after (λ _. fail error)
          (persistence.update
            (record params {
              status = MigrationStatus.migration_failure;
              errors = debug_text error ∷ [];
            })
            world)
    finish_apply (panic, params, world) = (panic, world)

    unfoldable pub finish_unapply : Ran World Failure Time → Outcome Failure (Unit {0}) × World
    finish_unapply (ok _, params, world) =
        persistence.update (record params { status = MigrationStatus.rollback_success }) world
    finish_unapply (err error, params, world) =
        after (λ _. fail error)
          (persistence.update
            (record params {
              status = MigrationStatus.rollback_failure;
              errors = debug_text error ∷ [];
            })
            world)
    finish_unapply (panic, params, world) = (panic, world)

  module _ {Json DatabaseMigration : Type 0}
      (persistence : MigrationPersistence World Failure Time Json)
      (step_applier : DatabaseMigrationStepApplier World Failure DatabaseMigration)
      (now : World → Time) (debug_text : Failure → String) where
    unfoldable pub apply :
        ℕ
        → Migration Time Json
        → DatabaseMigration
        → World
        → Option (Outcome Failure (Unit {0}) × World)
    apply fuel migration database_migration world =
        let started = record (update_params migration) {
          status = MigrationStatus.migration_in_progress;
        } in
        if MigrationStatus.is_pending migration.status
        then when_updated (go_forward persistence step_applier fuel database_migration started)
            (finish_apply persistence now debug_text) (persistence.update started world)
        else some (panic, world)

    unfoldable pub unapply :
        ℕ
        → Migration Time Json
        → DatabaseMigration
        → World
        → Option (Outcome Failure (Unit {0}) × World)
    unapply fuel migration database_migration world =
        let started = record (update_params migration) { status = MigrationStatus.rolling_back } in
        if MigrationStatus.is_success migration.status
        then when_updated (go_backward persistence step_applier fuel database_migration started)
            (finish_unapply persistence now debug_text) (persistence.update started world)
        else some (panic, world)
