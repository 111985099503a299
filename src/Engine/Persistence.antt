-- ===== src/Engine/Persistence.antt =====
-- `MigrationPersistence` of migration-engine/connectors/migration-connector/src/
-- migration_persistence.rs: the operations that a connector gives as a record, the trait's default
-- methods, and the implementor that stores nothing.
use mathlib.Core.List.{reverse}
use prisma_engines.Prelude.{String, Bool, not, ◌&&◌, Option, none, List, [], find, any, ◌==◌}
use prisma_engines.Engine.Effects.{Effect, ◌>>=◌, pure, abort}
use prisma_engines.Engine.MigrationStatus
use prisma_engines.Engine.Migration.{Migration, MigrationUpdateParams, is_watch_migration}

module _ (World Failure Time Json : Type 0) where
  pub record MigrationPersistence : Type 0 where
    pub init : Effect World Failure (Unit {0})
    pub reset : Effect World Failure (Unit {0})
    pub last : Effect World Failure (Option (Migration Time Json))
    pub by_name : String → Effect World Failure (Option (Migration Time Json))
    pub load_all : Effect World Failure (List (Migration Time Json))
    pub create : Migration Time Json → Effect World Failure (Migration Time Json)
    pub update : MigrationUpdateParams Time → Effect World Failure (Unit {0})

module _ {Time Json : Type 0} where
  abbrev pub is_success : Migration Time Json → Bool
  is_success migration = MigrationStatus.is_success migration.status

  -- What the default methods find in the migrations that are loaded.
  unfoldable pub newest_applied : List (Migration Time Json) → Option (Migration Time Json)
  newest_applied all =
      find (λ migration. not (is_watch_migration migration.name) && is_success migration)
        (reverse all)

  unfoldable pub newest : List (Migration Time Json) → Option (Migration Time Json)
  newest all = find (λ migration. not (is_watch_migration migration.name)) (reverse all)

  unfoldable pub is_applied : String → List (Migration Time Json) → Bool
  is_applied id = any λ migration. is_success migration && (migration.name == id)

module _ {World Failure Time Json : Type 0} where
  module _ (persistence : MigrationPersistence World Failure Time Json) where
    unfoldable pub last_non_watch_applied_migration :
        Effect World Failure (Option (Migration Time Json))
    last_non_watch_applied_migration = do all ← persistence.load_all; pure (newest_applied all)

    unfoldable pub last_non_watch_migration : Effect World Failure (Option (Migration Time Json))
    last_non_watch_migration = do all ← persistence.load_all; pure (newest all)

    unfoldable pub migration_is_already_applied : String → Effect World Failure Bool
    migration_is_already_applied id = do all ← persistence.load_all; pure (is_applied id all)

  unfoldable pub EmptyMigrationPersistence : MigrationPersistence World Failure Time Json
  EmptyMigrationPersistence = record {
    init = pure tt;
    reset = pure tt;
    last = pure none;
    by_name = λ _. pure none;
    load_all = pure [];
    create = λ _. abort;
    update = λ _. abort;
  }
