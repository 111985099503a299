-- ===== src/Engine/Diagram.antt =====
-- The statuses that a migration goes through, which the code keeps to and writes down nowhere:
-- migration-engine/connectors/migration-connector/src/migration_applier.rs.
use prisma_engines.Prelude.{◌≡◌, List, [], ◌∷◌}
use prisma_engines.Engine.MigrationStatus.{
  MigrationStatus, pending, migration_in_progress, migration_success, migration_failure,
  rolling_back, rollback_success, rollback_failure,
}
use prisma_engines.Engine.Migration.{Migration, MigrationUpdateParams}

-- The changes of the status by one update.
pub data Change : MigrationStatus → MigrationStatus → Type 0 where
  start : Change pending migration_in_progress
  progress : Change migration_in_progress migration_in_progress
  succeed : Change migration_in_progress migration_success
  break : Change migration_in_progress migration_failure
  start_back : Change migration_success rolling_back
  progress_back : Change rolling_back rolling_back
  succeed_back : Change rolling_back rollback_success
  break_back : Change rolling_back rollback_failure

module _ {Time Json : Type 0} (migration : Migration Time Json) where
  -- An update of this migration's row.
  pub record Concerns (params : MigrationUpdateParams Time) : Type 0 where
    pub same_name : params.name ≡ migration.name
    pub same_new_name : params.new_name ≡ migration.name
    pub same_revision : params.revision ≡ migration.revision

  -- The status that a sequence of updates, the newest first, leads to from the migration's.
  pub data Reached : MigrationStatus → List (MigrationUpdateParams Time) → Type 0 where
    none_yet : Reached migration.status []
    stored :
        {from to : MigrationStatus} {log : List (MigrationUpdateParams Time)}
        (params : MigrationUpdateParams Time)
        → Reached from log
        → Change from to
        → params.status ≡ to
        → Concerns params
        → Reached to (params ∷ log)

  -- The updates so far lead to the status, and the parameters carry it on.
  abbrev pub Holds :
      MigrationStatus → MigrationUpdateParams Time → List (MigrationUpdateParams Time) → Type 0
  Holds status params log = Reached status log × (params.status ≡ status) × Concerns params
