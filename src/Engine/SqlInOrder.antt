-- ===== src/Engine/SqlInOrder.antt =====
-- The loops of the migration applier over the SQL connector's steps, which
-- migration-engine/connectors/sql-migration-connector/src/sql_database_step_applier.rs runs.
use prisma_engines.Prelude.{
  ℕ, ◌+◌, ◌<◌, ◌≡◌, refl, ap, sym, ◌∙◌, String, Bool, true, false, some, List, [], ◌∷◌, length,
  Outcome, ok, err, panic, arith,
}
use prisma_engines.Engine.Effects.{Effect, after, pure}
use prisma_engines.Engine.Migration.{MigrationUpdateParams}
use prisma_engines.Engine.Persistence.{MigrationPersistence}
use prisma_engines.Engine.Steps.{
  get_elem?, run_step, apply_next_step, caught, catch, SqlMigration, SqlDatabaseStepApplier,
}
use prisma_engines.Engine.Applier.{go_forward, go_backward, count_applied, count_rolled_back}
use prisma_engines.Engine.InOrder.{in_order, head_run, drop, get_elem?-drop, run_steps-in_order}

module _ {World SqlFailure Failure Schema Step : Type 0}
    (into_connector_error : SqlFailure → Failure)
    (render_raw_sql : Step → Schema → Schema → Outcome SqlFailure (List String))
    (query_raw : String → Effect World SqlFailure (Unit {0})) where
  -- A step that the SQL connector runs.
  abbrev pub execute_sql : Schema → Schema → Step → Effect World Failure (Unit {0})
  execute_sql current next step =
      catch into_connector_error (run_step render_raw_sql query_raw current next step)

  caught-after :
      (more : Bool) (r : Outcome SqlFailure (Unit {0}) × World)
      → caught into_connector_error (after (λ _. pure more) r)
        ≡ after (λ _. pure more) (caught into_connector_error r)
  caught-after more (ok _, w) = refl
  caught-after more (err e, w) = refl
  caught-after more (panic, w) = refl

  apply_next_step-drop :
      (steps back : List Step) (i : ℕ) (current next : Schema) (w : World)
      → get_elem? steps i ≡ get_elem? back 0
      → get_elem? steps (i + 1) ≡ get_elem? back 1
      → catch into_connector_error (apply_next_step render_raw_sql query_raw steps i current next) w
        ≡ head_run (execute_sql current next) back w
  unfolding catch apply_next_step get_elem?
  apply_next_step-drop steps [] i current next w first second =
      rw (first, apply_next_step, catch) refl
  apply_next_step-drop steps (s ∷ []) i current next w first second =
      rw (first, apply_next_step, catch)
        (rw (second) (caught-after false (run_step render_raw_sql query_raw current next s w)))
  apply_next_step-drop steps (s ∷ t ∷ rest) i current next w first second =
      rw (first, apply_next_step, catch)
        (rw (second) (caught-after true (run_step render_raw_sql query_raw current next s w)))

  sql_calls :
      (steps : List Step) (current next : Schema) (i : ℕ) (w : World)
      → catch into_connector_error
          (apply_next_step render_raw_sql query_raw steps (0 + i) current next)
          w
        ≡ head_run (execute_sql current next) (drop i steps) w
  sql_calls steps current next i w =
      apply_next_step-drop steps (drop i steps) (0 + i) current next w
        (ap (get_elem? steps) {x = 0 + i} (omega arith) ∙ sym (get_elem?-drop i 0 steps))
        (ap (get_elem? steps) {x = 0 + i + 1} (omega arith) ∙ sym (get_elem?-drop i 1 steps))

  module _ {Time Json : Type 0} (persistence : MigrationPersistence World Failure Time Json) where
    -- For any database migration, the loop of `go_forward` over the SQL connector ends, if its fuel is
    -- greater than the number of the corrected steps, and what it returns and leaves is what the
    -- corrected steps give in order: each one is run once, none after one that fails, and the counted
    -- progress is stored after each that succeeds but the last.
    pub go_forward-in_order :
        (migration : SqlMigration Schema Step) (fuel : ℕ) (params : MigrationUpdateParams Time)
        (world : World)
        → length migration.corrected_steps < fuel
        → go_forward persistence
            (SqlDatabaseStepApplier into_connector_error render_raw_sql query_raw)
            fuel
            migration
            params
            world
          ≡ some (
              in_order persistence.update count_applied
                (execute_sql migration.before migration.after)
                migration.corrected_steps
                params
                world)
    unfolding go_forward SqlDatabaseStepApplier
    go_forward-in_order migration fuel params world enough =
        run_steps-in_order persistence.update count_applied
          (execute_sql migration.before migration.after)
          (λ i. catch into_connector_error (
            apply_next_step render_raw_sql query_raw migration.corrected_steps i migration.before
              migration.after))
          migration.corrected_steps fuel 0 params world
          (sql_calls migration.corrected_steps migration.before migration.after) enough

    -- For any database migration, the loop of `go_backward` over the SQL connector ends, if its
    -- fuel is greater than the number of the rollback steps, and what it returns and leaves is what
    -- the rollback steps give in order, from the schema after the migration to the one before it:
    -- each one is run once, none after one that fails, and the counted progress is stored after
    -- each that succeeds but the last.
    pub go_backward-in_order :
        (migration : SqlMigration Schema Step) (fuel : ℕ) (params : MigrationUpdateParams Time)
        (world : World)
        → length migration.rollback < fuel
        → go_backward persistence
            (SqlDatabaseStepApplier into_connector_error render_raw_sql query_raw)
            fuel
            migration
            params
            world
          ≡ some (
              in_order persistence.update count_rolled_back
                (execute_sql migration.after migration.before)
                migration.rollback
                params
                world)
    unfolding go_backward SqlDatabaseStepApplier
    go_backward-in_order migration fuel params world enough =
        run_steps-in_order persistence.update count_rolled_back
          (execute_sql migration.after migration.before)
          (λ i. catch into_connector_error (
            apply_next_step render_raw_sql query_raw migration.rollback i migration.after
              migration.before))
          migration.rollback fuel 0 params world
          (sql_calls migration.rollback migration.after migration.before) enough
