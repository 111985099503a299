-- ===== src/Engine/Steps.antt =====
-- The connector's step applier: `DatabaseMigrationStepApplier` of
-- migration-engine/connectors/migration-connector/src/database_migration_step_applier.rs as a record,
-- and the SQL connector's of migration-engine/connectors/sql-migration-connector/src/
-- sql_database_step_applier.rs. The rendered SQL and the connection are parameters.
use prisma_engines.Prelude.{
  ℕ, zero, suc, ◌+◌, String, Bool, false, Option, none, some, is_some, List, [], ◌∷◌, Outcome, ok,
  err, panic,
}
use prisma_engines.Engine.Effects.{Effect, ◌>>=◌, ◌>>◌, pure, lift}

module _ (World Failure DatabaseMigration : Type 0) where
  -- `render_steps_pretty` changes no state; the commands take it as a parameter.
  pub record DatabaseMigrationStepApplier : Type 0 where
    pub apply_step : DatabaseMigration → ℕ → Effect World Failure Bool
    pub unapply_step : DatabaseMigration → ℕ → Effect World Failure Bool

-- `steps.get(index)`.
unfoldable pub get_elem? {ℓ} : {A : Type ℓ} → List A → ℕ → Option A
get_elem? [] index = none
get_elem? (x ∷ xs) zero = some x
get_elem? (x ∷ xs) (suc index) = get_elem? xs index

module _ {World SqlFailure : Type 0} (query_raw : String → Effect World SqlFailure (Unit {0})) where
  -- The loop over the statements of a step.
  unfoldable pub query_all : List String → Effect World SqlFailure (Unit {0})
  query_all [] = pure tt
  query_all (sql_string ∷ rest) = do query_raw sql_string; query_all rest

module _ {World SqlFailure Schema Step : Type 0}
    (render_raw_sql : Step → Schema → Schema → Outcome SqlFailure (List String))
    (query_raw : String → Effect World SqlFailure (Unit {0})) where
  -- All statements of one step, from the schema before it to the one after.
  unfoldable pub run_step : Schema → Schema → Step → Effect World SqlFailure (Unit {0})
  run_step current_schema next_schema step = do
    sql ← lift (render_raw_sql step current_schema next_schema)
    query_all query_raw sql

  unfoldable pub apply_next_step : List Step → ℕ → Schema → Schema → Effect World SqlFailure Bool
  apply_next_step steps index current_schema next_schema = elim (get_elem? steps index) [
    | none ↦ pure false
    | some step ↦ do
      run_step current_schema next_schema step
      pure (is_some (get_elem? steps (index + 1)))
  ]

-- `SqlMigration` of sql-migration-connector/src/sql_migration.rs, over the types of the schemas and of
-- the steps.
pub record SqlMigration (Schema Step : Type 0) : Type 0 where
  pub before : Schema
  pub after : Schema
  pub original_steps : List Step
  pub corrected_steps : List Step
  pub rollback : List Step

-- `catch` of sql-migration-connector/src/lib.rs.
abbrev pub caught :
    {A SqlFailure Failure World : Type 0}
    → (SqlFailure → Failure)
    → Outcome SqlFailure A × World
    → Outcome Failure A × World
caught into_connector_error (ok a, world) = (ok a, world)
caught into_connector_error (err error, world) = (err (into_connector_error error), world)
caught into_connector_error (panic, world) = (panic, world)

unfoldable pub catch :
    {A SqlFailure Failure World : Type 0}
    → (SqlFailure → Failure)
    → Effect World SqlFailure A
    → Effect World Failure A
catch into_connector_error effect world = caught into_connector_error (effect world)

module _ {World SqlFailure Failure Schema Step : Type 0}
    (into_connector_error : SqlFailure → Failure)
    (render_raw_sql : Step → Schema → Schema → Outcome SqlFailure (List String))
    (query_raw : String → Effect World SqlFailure (Unit {0})) where
  unfoldable pub SqlDatabaseStepApplier :
      DatabaseMigrationStepApplier World Failure (SqlMigration Schema Step)
  SqlDatabaseStepApplier = record {
    apply_step = λ migration index. catch into_connector_error (
        apply_next_step render_raw_sql query_raw migration.corrected_steps index migration.before
          migration.after);
    unapply_step = λ migration index. catch into_connector_error (
        apply_next_step render_raw_sql query_raw migration.rollback index migration.after
          migration.before);
  }
