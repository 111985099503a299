-- ===== src/Engine/Progress.antt =====
-- The progress that the loops of the applier count:
-- migration-engine/connectors/migration-connector/src/migration_applier.rs.
use Prim.Native.Nat.{◌-◌}
use prisma_engines.Prelude.{
  ℕ, suc, ◌+◌, ◌<◌, ◌≤◌, ◌≡◌, String, List, [], ◌∷◌, length, some, Outcome, ok, err, panic, arith,
}
use prisma_engines.Engine.Effects.{Effect}
use prisma_engines.Engine.Migration.{MigrationUpdateParams}
use prisma_engines.Engine.Persistence.{MigrationPersistence}
use prisma_engines.Engine.Steps.{SqlMigration, SqlDatabaseStepApplier}
use prisma_engines.Engine.Applier.{Ran, go_forward, count_applied}
use prisma_engines.Engine.InOrder.{in_order, stored, executed}
use prisma_engines.Engine.SqlInOrder.{execute_sql, go_forward-in_order}

-- A run over a number of steps counts one less than that many, and at most that if it fails.
abbrev pub Counted :
    {World Failure Time : Type 0} → ℕ → MigrationUpdateParams Time → Ran World Failure Time → Type 0
Counted n before (ok _, params, world) = params.applied ≡ before.applied + (n - 1)
Counted n before (err _, params, world) =
    (before.applied ≤ params.applied) × (params.applied ≤ before.applied + (n - 1))
Counted n before (panic, params, world) =
    (before.applied ≤ params.applied) × (params.applied ≤ before.applied + (n - 1))

module _ {World Failure Time Step : Type 0}
    (update : MigrationUpdateParams Time → Effect World Failure (Unit {0}))
    (execute : Step → Effect World Failure (Unit {0})) where
  one_more :
      (n : ℕ) (before : MigrationUpdateParams Time) (r : Ran World Failure Time)
      → Counted (suc n) (count_applied before) r
      → Counted (suc (suc n)) before r
  one_more n before (ok _, p, w) h = omega arith
  one_more n before (err _, p, w) h = omega arith
  one_more n before (panic, p, w) h = omega arith

  stored-Counted :
      (n : ℕ) (before : MigrationUpdateParams Time)
      (next : MigrationUpdateParams Time → World → Ran World Failure Time)
      → ((p : MigrationUpdateParams Time) (w : World) → Counted (suc n) p (next p w))
      → (r : Outcome Failure (Unit {0}) × World)
      → Counted
          (suc n)
          (count_applied before)
          (stored update count_applied execute next (count_applied before) r)
  stored-Counted n before next ih (ok _, w) = ih (count_applied before) w
  stored-Counted n before next ih (err _, w) = omega arith
  stored-Counted n before next ih (panic, w) = omega arith

  executed-Counted :
      (n : ℕ) (before : MigrationUpdateParams Time)
      (next : MigrationUpdateParams Time → World → Ran World Failure Time)
      → ((p : MigrationUpdateParams Time) (w : World) → Counted (suc n) p (next p w))
      → (r : Outcome Failure (Unit {0}) × World)
      → Counted (suc (suc n)) before (executed update count_applied execute next before r)
  executed-Counted n before next ih (ok _, w) =
      let r : Outcome Failure (Unit {0}) × World = update (count_applied before) w in
      one_more n before (stored update count_applied execute next (count_applied before) r)
        (stored-Counted n before next ih r)
  executed-Counted n before next ih (err _, w) = omega arith
  executed-Counted n before next ih (panic, w) = omega arith

  stopped-Counted :
      (before : MigrationUpdateParams Time) (r : Outcome Failure (Unit {0}) × World)
      → Counted 1 before (r.0, before, r.1)
  stopped-Counted before (ok _, w) = omega arith
  stopped-Counted before (err _, w) = omega arith
  stopped-Counted before (panic, w) = omega arith

  in_order-Counted :
      (steps : List Step) (before : MigrationUpdateParams Time) (w : World)
      → Counted (length steps) before (in_order update count_applied execute steps before w)
  unfolding in_order
  in_order-Counted [] before w = omega arith
  in_order-Counted (s ∷ []) before w = stopped-Counted before (execute s w)
  in_order-Counted (s ∷ t ∷ rest) before w =
      executed-Counted (length rest) before (in_order update count_applied execute (t ∷ rest))
        (in_order-Counted (t ∷ rest)) (execute s w)

module _ {World SqlFailure Failure Time Json Schema Step : Type 0}
    (into_connector_error : SqlFailure → Failure)
    (render_raw_sql : Step → Schema → Schema → Outcome SqlFailure (List String))
    (query_raw : String → Effect World SqlFailure (Unit {0}))
    (persistence : MigrationPersistence World Failure Time Json) where
  -- With more fuel than there are corrected steps, the loop of `go_forward` over the SQL connector
  -- returns. The `applied` of the parameters then has grown by one less than the number of the steps,
  -- or not at all if there are none, where the loop returns no error; and by no more where it does.
  pub go_forward-Counted :
      (migration : SqlMigration Schema Step) (fuel : ℕ) (params : MigrationUpdateParams Time)
      (world : World)
      → length migration.corrected_steps < fuel
      → (result : Ran World Failure Time) × (go_forward persistence
            (SqlDatabaseStepApplier into_connector_error render_raw_sql query_raw)
            fuel
            migration
            params
            world
          ≡ some result)
        × Counted (length migration.corrected_steps) params result
  go_forward-Counted migration fuel params world enough =
      let execute : Step → Effect World Failure (Unit {0}) =
        execute_sql into_connector_error render_raw_sql query_raw migration.before
          migration.after in
      (
        in_order persistence.update count_applied execute migration.corrected_steps params world,
        go_forward-in_order into_connector_error render_raw_sql query_raw persistence migration fuel
            params world enough,
        in_order-Counted persistence.update execute migration.corrected_steps params world,
      )
