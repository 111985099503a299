-- ===== src/Engine/SqlSilent.antt =====
-- The SQL connector's steps try no update of a migration:
-- migration-engine/connectors/sql-migration-connector/src/sql_database_step_applier.rs.
use prisma_engines.Prelude.{String, ◌≡◌, refl, ◌∙◌, List, [], ◌∷◌, Outcome, ok, err, panic}
use prisma_engines.Engine.Effects.{Effect, after}
use prisma_engines.Engine.Steps.{query_all, run_step, caught, catch}
use prisma_engines.Engine.SqlInOrder.{execute_sql}
use prisma_engines.Engine.Logged.{Logged, quiet}

module _ {World Failure Time : Type 0} where
  pub after_log :
      {A B : Type 0} (next : A → Effect (Logged Time World) Failure B)
      (r : Outcome Failure A × Logged Time World)
      → ((a : A) (state : Logged Time World) → (next a state).1.0 ≡ state.0)
      → (after next r).1.0 ≡ r.1.0
  after_log next (ok a, state) silent = silent a state
  after_log next (err _, state) silent = refl
  after_log next (panic, state) silent = refl

module _ {World SqlFailure Failure Time Schema Step : Type 0}
    (into_connector_error : SqlFailure → Failure)
    (render_raw_sql : Step → Schema → Schema → Outcome SqlFailure (List String))
    (query_raw : String → Effect World SqlFailure (Unit {0})) where
  query_all_log :
      (sql : List String) (state : Logged Time World)
      → (query_all (quiet query_raw) sql state).1.0 ≡ state.0
  unfolding query_all
  query_all_log [] state = refl
  query_all_log (statement ∷ rest) state =
      after_log (λ _. query_all (quiet query_raw) rest) (quiet query_raw statement state)
        λ _. query_all_log rest

  caught_log :
      (r : Outcome SqlFailure (Unit {0}) × Logged Time World)
      → (caught into_connector_error r).1.0 ≡ r.1.0
  caught_log (ok _, state) = refl
  caught_log (err _, state) = refl
  caught_log (panic, state) = refl

  pub execute_sql_log :
      (current next : Schema) (step : Step) (state : Logged Time World)
      → (execute_sql into_connector_error render_raw_sql
          (quiet query_raw)
          current
          next
          step
          state).1.0
        ≡ state.0
  unfolding catch run_step
  execute_sql_log current next step state =
      caught_log (run_step render_raw_sql (quiet query_raw) current next step state)
      ∙ after_log (query_all (quiet query_raw)) (render_raw_sql step current next, state)
          query_all_log
