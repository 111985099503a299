-- ===== src/Engine/Commands/Validated.antt =====
-- The check of the migrations that inference is to assume:
-- migration-engine/core/src/commands/infer_migration_steps.rs.
use prisma_engines.Prelude.{
  String, Bool, true, false, ◌≡◌, refl, Option, none, some, List, [], ◌∷◌, find, any, ◌&&◌, ◌==◌,
  if◌then◌else◌, Outcome, ok, err,
}
use prisma_engines.Engine.Effects.{Effect, fail}
use prisma_engines.Engine.MigrationStatus
use prisma_engines.Engine.MigrationStatus.{MigrationStatus}
use prisma_engines.Engine.Migration.{Migration}
use prisma_engines.Engine.Persistence.{
  MigrationPersistence, is_applied, migration_is_already_applied,
}
use prisma_engines.Engine.Steps.{catch}
use prisma_engines.Engine.Connector.{CommandError}
use prisma_engines.Engine.Commands.Infer.{
  AppliedMigration, InferMigrationStepsInput, validate_migrations, validate_given,
  validate_assumed_migrations_are_not_applied,
}

-- The answer of the check by the first assumed migration that is already applied.
abbrev pub refusal :
    {Failure Problem : Type 0}
    → (String → Failure)
    → Option AppliedMigration
    → Outcome (CommandError Failure Problem) (Unit {0})
refusal already_applied none = ok tt
refusal already_applied (some migration) =
    err (CommandError.connector_error (already_applied migration.migration_id))

abbrev pub has_succeeded : MigrationStatus → Bool
has_succeeded MigrationStatus.migration_success = true
has_succeeded _ = false

-- A loaded migration has the name of the assumed one, and has succeeded.
abbrev pub is_among_successful :
    {Time Json : Type 0} → List (Migration Time Json) → AppliedMigration → Bool
is_among_successful all assumed_migration =
    any (λ stored. has_succeeded stored.status && (stored.name == assumed_migration.migration_id))
      all

abbrev pub assumed : Option (List AppliedMigration) → List AppliedMigration
assumed none = []
assumed (some migrations) = migrations

module _ {World Failure Time Json Problem : Type 0} (already_applied : String → Failure) where
  module _ (persistence : MigrationPersistence World Failure Time Json)
      (all : List (Migration Time Json))
      (loads : (world : World) → persistence.load_all world ≡ (ok all, world)) where
    first_refusal :
        (migration : AppliedMigration)
        → (rest : Effect World (CommandError Failure Problem) (Unit {0}))
        → (found : Option AppliedMigration) → (world : World)
        → rest world ≡ (refusal already_applied found, world)
        → (test : Bool)
        → (if test
              then fail (CommandError.connector_error (already_applied migration.migration_id))
              else rest)
            world
          ≡ (refusal already_applied (if test then some migration else found), world)
    first_refusal migration rest found world same true = refl
    first_refusal migration rest found world same false = same

    validate_migrations-find :
        (migrations : List AppliedMigration)
        → (world : World)
        → validate_migrations {Problem = Problem} already_applied persistence migrations world
          ≡ (refusal already_applied (find (λ m. is_applied m.migration_id all) migrations), world)
    unfolding validate_migrations find migration_is_already_applied catch
    validate_migrations-find [] world = refl
    validate_migrations-find (migration ∷ migrations) world = rw (loads world) (
        first_refusal migration (validate_migrations already_applied persistence migrations)
          (find (λ m. is_applied m.migration_id all) migrations) world
          (validate_migrations-find migrations world) (is_applied migration.migration_id all))

    validate_given-find :
        (given : Option (List AppliedMigration))
        → (world : World)
        → validate_given {Problem = Problem} already_applied persistence given world ≡ (
          refusal already_applied (find (λ m. is_applied m.migration_id all) (assumed given)),
          world,
        )
    unfolding validate_given find
    validate_given-find none world = refl
    validate_given-find (some migrations) world = validate_migrations-find migrations world

    -- With a persistence that loads the same migrations always and leaves the world, the check of
    -- the assumed migrations leaves it too. It succeeds if none of them is among the loaded ones as
    -- a successful migration, and otherwise its error names the first that is.
    pub validate_assumed_migrations_are_not_applied-find :
        (input : InferMigrationStepsInput)
        → (world : World)
        → validate_assumed_migrations_are_not_applied {Problem = Problem} already_applied
            persistence input world
          ≡ (
            refusal already_applied
                (find (is_among_successful all) (assumed input.assume_applied_migrations)),
            world,
          )
    unfolding validate_assumed_migrations_are_not_applied is_applied MigrationStatus.is_success
    validate_assumed_migrations_are_not_applied-find input world =
        validate_given-find input.assume_applied_migrations world
