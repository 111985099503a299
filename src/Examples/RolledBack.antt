-- ===== src/Examples/RolledBack.antt =====
-- The theorems on rollbacks: a migration of two rollback steps, and a command that is told not to
-- force one with warnings.
use prisma_engines.Prelude.{
  ℕ, ◌≡◌, refl, ap, sym, Bool, false, String, some, List, [], ◌∷◌, ◌++◌, Outcome, ok, arith,
}
use prisma_engines.Sql.Steps.{no_entries}
use prisma_engines.Engine.Effects.{Effect, pure}
use prisma_engines.Engine.MigrationStatus.{MigrationStatus}
use prisma_engines.Engine.Migration.{Migration, MigrationUpdateParams}
use prisma_engines.Engine.Persistence.{MigrationPersistence, EmptyMigrationPersistence}
use prisma_engines.Engine.Steps.{SqlMigration, SqlDatabaseStepApplier}
use prisma_engines.Engine.Applier.{go_backward, count_rolled_back}
use prisma_engines.Engine.InOrder.{in_order}
use prisma_engines.Engine.SqlInOrder.{execute_sql, go_backward-in_order}
use prisma_engines.Engine.Checks.{
  DestructiveChangeDiagnostics, DestructiveChangeDiagnostics_new, add_warning, has_warnings,
}
use prisma_engines.Engine.Connector.{MigrationApplier, MigrationConnector}
use prisma_engines.Engine.Commands.Unapply.{UnapplyMigrationInput, execute}
use prisma_engines.Engine.Commands.Refused.{AlwaysWarnsBack, with_applier, execute-with_applier}

-- The statements that the database has run.
abbrev World : Type 0
World = List String

abbrev same_error : String → String
same_error error = error

abbrev render : String → ℕ → ℕ → Outcome String (List String)
render step _ _ = ok (step ∷ [])

abbrev query : String → Effect World String (Unit {0})
query sql world = (ok tt, world ++ sql ∷ [])

abbrev applied : Migration ℕ String
applied = record {
  name = "first";
  revision = 1;
  status = MigrationStatus.migration_success;
  applied = 1;
  rolled_back = 0;
  datamodel_string = "";
  datamodel_steps = [];
  database_migration = "DROP";
  errors = [];
  started_at = 5;
  finished_at = some 6;
}

abbrev persistence : MigrationPersistence World String ℕ String
persistence = record EmptyMigrationPersistence {
  last = pure (some applied);
  update = λ params. pure tt;
}

abbrev params : MigrationUpdateParams ℕ
params = record {
  name = "first";
  new_name = "first";
  revision = 1;
  status = MigrationStatus.rolling_back;
  applied = 1;
  rolled_back = 0;
  errors = [];
  finished_at = some 6;
}

abbrev two_back : SqlMigration ℕ String
two_back = record {
  before = 0;
  after = 1;
  original_steps = "CREATE" ∷ [];
  corrected_steps = "CREATE" ∷ [];
  rollback = "DELETE" ∷ "DROP" ∷ [];
}

go_backward-in_order_example :
    go_backward persistence (SqlDatabaseStepApplier same_error render query) 3 two_back params []
    ≡ some (
        in_order persistence.update count_rolled_back
          (execute_sql same_error render query 1 0)
          ("DELETE" ∷ "DROP" ∷ [])
          params
          [])
go_backward-in_order_example =
    go_backward-in_order same_error render query persistence two_back 3 params [] (omega arith)

abbrev warning : DestructiveChangeDiagnostics
warning =
    add_warning DestructiveChangeDiagnostics_new (some (record { description = "rows are lost" }))

abbrev connector : MigrationConnector World String ℕ String String String
connector = record {
  initialize = pure tt;
  reset = pure tt;
  check_database_version_compatibility = λ _. [];
  database_migration_inferrer = record {
    infer = λ _ _ _. pure "DROP";
    infer_from_datamodels = λ _ _ _. pure "DROP";
  };
  migration_persistence = persistence;
  render_steps_pretty = λ sql. ok (sql ∷ []);
  destructive_changes_checker = record {
    check = λ _. pure warning;
    check_unapply = λ _. pure warning;
  };
  serialize = λ sql. sql;
  deserialize_database_migration = λ sql. some sql;
  migration_applier = record { apply = λ _ sql. query sql; unapply = λ _ sql. query sql };
}

abbrev idle_applier : MigrationApplier World String ℕ String String
idle_applier = record { apply = λ _ _. pure tt; unapply = λ _ _. pure tt }

abbrev warned : Outcome String DestructiveChangeDiagnostics → Bool
warned (ok diagnostics) = has_warnings diagnostics
warned _ = false

connector-AlwaysWarnsBack : AlwaysWarnsBack connector
unfolding has_warnings add_warning DestructiveChangeDiagnostics_new no_entries
connector-AlwaysWarnsBack migration world left diagnostics answer =
    sym (ap (λ r. warned r.0) answer)

abbrev input : UnapplyMigrationInput
input = record { force = some false }

execute-with_applier_example :
    execute {Problem = String} connector input []
    ≡ execute (with_applier idle_applier connector) input []
execute-with_applier_example =
    execute-with_applier connector connector-AlwaysWarnsBack input refl idle_applier []
