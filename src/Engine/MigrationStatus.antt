-- ===== src/Engine/MigrationStatus.antt =====
-- `MigrationStatus` of migration-engine/connectors/migration-connector/src/migration_persistence.rs.
use prisma_engines.Prelude.{String, Bool, true, false, if◌then◌else◌, Outcome, ok, panic, ◌==◌}

pub data MigrationStatus : Type 0 where
  pending : MigrationStatus
  migration_in_progress : MigrationStatus
  migration_success : MigrationStatus
  migration_failure : MigrationStatus
  rolling_back : MigrationStatus
  rollback_success : MigrationStatus
  rollback_failure : MigrationStatus

unfoldable pub code : MigrationStatus → String
code pending = "Pending"
code migration_in_progress = "MigrationInProgress"
code migration_success = "MigrationSuccess"
code migration_failure = "MigrationFailure"
code rolling_back = "RollingBack"
code rollback_success = "RollbackSuccess"
code rollback_failure = "RollbackFailure"

unfoldable pub from_str : {Failure : Type 0} → String → Outcome Failure MigrationStatus
from_str s =
    if s == "Pending"
    then ok pending
    else if s == "MigrationInProgress"
    then ok migration_in_progress
    else if s == "MigrationSuccess"
    then ok migration_success
    else if s == "MigrationFailure"
    then ok migration_failure
    else if s == "RollingBack"
    then ok rolling_back
    else if s == "RollbackSuccess"
    then ok rollback_success
    else if s == "RollbackFailure"
    then ok rollback_failure
    else panic

unfoldable pub is_success : MigrationStatus → Bool
is_success migration_success = true
is_success _ = false

unfoldable pub is_pending : MigrationStatus → Bool
is_pending pending = true
is_pending _ = false
