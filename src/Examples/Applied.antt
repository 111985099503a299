-- ===== src/Examples/Applied.antt =====
-- The theorems on the migration applier, at a migration of two steps on a database that keeps the
-- statements that it runs.
use prisma_engines.Prelude.{
  ℕ, ◌≡◌, refl, String, none, some, List, [], ◌∷◌, ◌++◌, Outcome, ok, arith,
}
use mathlib.Core.Logic.{◌↔◌}
use prisma_engines.Engine.Effects.{Effect, pure}
use prisma_engines.Engine.MigrationStatus.{MigrationStatus, code, from_str}
use prisma_engines.Engine.Migration.{Migration, MigrationUpdateParams}
use prisma_engines.Engine.Persistence.{MigrationPersistence}
use prisma_engines.Engine.Steps.{
  SqlMigration, SqlDatabaseStepApplier, apply_next_step, run_step, query_all, catch, get_elem?,
}
use prisma_engines.Engine.Applier.{Ran, run_steps, go_forward, apply, count_applied}
use prisma_engines.Engine.InOrder.{in_order}
use prisma_engines.Engine.SqlInOrder.{execute_sql, go_forward-in_order}
use prisma_engines.Engine.Logged.{Logged, quiet, logged_persistence}
use prisma_engines.Engine.ApplyEnds.{Traced, apply-Traced}
use prisma_engines.Engine.ApplySettles.{Settled, apply-Settled}
use prisma_engines.Engine.Progress.{Counted, go_forward-Counted}
use prisma_engines.Engine.StatusCodes.{from_str-iff-code}

-- The statements that the database has run.
abbrev World : Type 0
World = List String

abbrev same_error : String → String
same_error error = error

abbrev render : String → ℕ → ℕ → Outcome String (List String)
render step _ _ = ok (step ∷ [])

abbrev query : String → Effect World String (Unit {0})
query sql world = (ok tt, world ++ sql ∷ [])

abbrev store : MigrationUpdateParams ℕ → Effect World String (Unit {0})
store params world = (ok tt, world)

abbrev persistence : MigrationPersistence World String ℕ String
persistence = record {
  init = pure tt;
  reset = pure tt;
  last = pure none;
  by_name = λ _. pure none;
  load_all = pure [];
  create = pure;
  update = store;
}

abbrev initial : Migration ℕ String
initial = record {
  name = "first";
  revision = 1;
  status = MigrationStatus.pending;
  applied = 0;
  rolled_back = 0;
  datamodel_string = "";
  datamodel_steps = [];
  database_migration = "{}";
  errors = [];
  started_at = 5;
  finished_at = none;
}

abbrev params : MigrationUpdateParams ℕ
params = record {
  name = "first";
  new_name = "first";
  revision = 1;
  status = MigrationStatus.migration_in_progress;
  applied = 0;
  rolled_back = 0;
  errors = [];
  finished_at = none;
}

abbrev two_steps : SqlMigration ℕ String
two_steps = record {
  before = 0;
  after = 1;
  original_steps = "CREATE" ∷ "INSERT" ∷ [];
  corrected_steps = "CREATE" ∷ "INSERT" ∷ [];
  rollback = "DROP" ∷ [];
}

-- The time at which all happens.
abbrev at_six : Logged ℕ World → ℕ
at_six _ = 6

go_forward-in_order_example :
    go_forward persistence (SqlDatabaseStepApplier same_error render query) 3 two_steps params []
    ≡ some (
        in_order store count_applied
          (execute_sql same_error render query 0 1)
          ("CREATE" ∷ "INSERT" ∷ [])
          params
          [])
go_forward-in_order_example =
    go_forward-in_order same_error render query persistence two_steps 3 params [] (omega arith)

go_forward-Counted_example :
    (result : Ran World String ℕ) × (go_forward persistence
        (SqlDatabaseStepApplier same_error render query)
        3
        two_steps
        params
        []
      ≡ some result)
    × Counted 2 params result
go_forward-Counted_example =
    go_forward-Counted same_error render query persistence two_steps 3 params [] (omega arith)

apply-Traced_example :
    (result : Outcome String (Unit {0}) × Logged ℕ World) × (apply
        (logged_persistence persistence)
        (SqlDatabaseStepApplier same_error render (quiet query))
        at_six
        same_error
        3
        initial
        two_steps
        ([], [])
      ≡ some result)
    × Traced initial result
apply-Traced_example =
    apply-Traced same_error render query persistence at_six same_error initial refl two_steps 3
      (omega arith) []

apply-Settled_example :
    (result : Outcome String (Unit {0}) × Logged ℕ World) × (apply
        (logged_persistence persistence)
        (SqlDatabaseStepApplier same_error render (quiet query))
        at_six
        same_error
        3
        initial
        two_steps
        ([], [])
      ≡ some result)
    × Settled same_error initial result
apply-Settled_example =
    apply-Settled same_error render query persistence at_six same_error initial refl two_steps 3
      (omega arith) [] (λ _ _. refl)

from_str-iff-code_example :
    (from_str {Failure = String} "RollingBack" ≡ ok MigrationStatus.rolling_back)
    ↔ ("RollingBack" ≡ code MigrationStatus.rolling_back)
from_str-iff-code_example = from_str-iff-code String MigrationStatus.rolling_back "RollingBack"

-- Both statements are run, and one step is counted.
two_steps_run :
    go_forward persistence (SqlDatabaseStepApplier same_error render query) 3 two_steps params []
    ≡ some (ok tt, record params { applied = 1 }, "CREATE" ∷ "INSERT" ∷ [])
unfolding go_forward SqlDatabaseStepApplier run_steps apply_next_step run_step query_all catch
    get_elem?
two_steps_run = refl
