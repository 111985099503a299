-- ===== src/Engine/ApplySettles.antt =====
-- How a migration ends that the SQL connector applies, if each update of its row is stored:
-- migration-engine/connectors/migration-connector/src/migration_applier.rs.
use prisma_engines.Prelude.{
  ℕ, ◌<◌, String, ◌≡◌, refl, sym, subst, List, [], ◌∷◌, length, Outcome, ok, err, panic, some,
}
use prisma_engines.Engine.Ended.{apply_by}
use prisma_engines.Engine.Effects.{Effect, after, fail}
use prisma_engines.Engine.MigrationStatus.{
  pending, migration_in_progress, migration_success, migration_failure,
}
use prisma_engines.Engine.Migration.{
  Migration, MigrationUpdateParams, update_params, mark_as_finished,
}
use prisma_engines.Engine.Persistence.{MigrationPersistence}
use prisma_engines.Engine.Steps.{SqlMigration, SqlDatabaseStepApplier}
use prisma_engines.Engine.Applier.{Ran, apply, finish_apply}
use prisma_engines.Engine.Diagram.{Change, Reached}
use prisma_engines.Engine.Logged.{Logged, quiet, logged, logged_persistence}
use prisma_engines.Engine.Statuses.{RanHolds}

broken-eq-err :
    {World Failure : Type 0} (error : Failure) (r : Outcome Failure (Unit {0}) × World)
    → r.0 ≡ ok tt
    → after {B = Unit {0}} (λ _. fail error) r ≡ (err error, r.1)
broken-eq-err error (ok _, world) h = refl
broken-eq-err error (err _, world) h = cc
broken-eq-err error (panic, world) h = cc

-- The newest update stores the error's text.
abbrev pub Stores : {Time : Type 0} → String → List (MigrationUpdateParams Time) → Type 0
Stores text [] = ⊥
Stores text (params ∷ log) = params.errors ≡ text ∷ []

-- The status that the updates lead to is that of the result. A panic leaves the one of the loop.
abbrev pub Settled :
    {World Failure Time Json : Type 0}
    → (Failure → String)
    → Migration Time Json
    → Outcome Failure (Unit {0}) × Logged Time World
    → Type 0
Settled debug_text migration (ok _, (log, world)) = Reached migration migration_success log
Settled debug_text migration (err error, (log, world)) =
    Reached migration migration_failure log × Stores (debug_text error) log
Settled debug_text migration (panic, (log, world)) = Reached migration migration_in_progress log

module _ {World Failure Time Json : Type 0}
    (persistence : MigrationPersistence World Failure Time Json) (now : Logged Time World → Time)
    (debug_text : Failure → String) (migration : Migration Time Json)
    (stores : (params : MigrationUpdateParams Time) (outside : World)
      → (persistence.update params outside).0 ≡ ok tt) where
  Settled-success :
      (r : Outcome Failure (Unit {0}) × Logged Time World)
      → r.0 ≡ ok tt
      → Reached migration migration_success r.1.0
      → Settled debug_text migration r
  Settled-success (ok _, state) h reached = reached
  Settled-success (err _, state) h reached = cc
  Settled-success (panic, state) h reached = cc

  finished-Settled :
      (r : Ran (Logged Time World) Failure Time)
      → RanHolds migration migration_in_progress r
      → Settled debug_text migration
          (finish_apply (logged_persistence persistence) now debug_text r)
  unfolding finish_apply mark_as_finished
  finished-Settled (ok _, p, state) (reached, at, about) =
      Settled-success (logged persistence.update (mark_as_finished (now state) p) state)
        (stores (mark_as_finished (now state) p) state.1)
        (Reached.stored (mark_as_finished (now state) p) reached Change.succeed refl (record {
          same_name = about.same_name;
          same_new_name = about.same_new_name;
          same_revision = about.same_revision;
        }))
  finished-Settled (err error, p, state) (reached, at, about) =
      let last : MigrationUpdateParams Time = record p {
        status = migration_failure;
        errors = debug_text error ∷ [];
      } in
      subst (Settled debug_text migration)
        (sym (broken-eq-err error (logged persistence.update last state) (stores last state.1)))
        (
          Reached.stored last reached Change.break refl (record {
            same_name = about.same_name;
            same_new_name = about.same_new_name;
            same_revision = about.same_revision;
          }),
          refl,
        )
  finished-Settled (panic, p, state) (reached, at, about) = reached

module _ {World SqlFailure Failure Time Json Schema Step : Type 0}
    (into_connector_error : SqlFailure → Failure)
    (render_raw_sql : Step → Schema → Schema → Outcome SqlFailure (List String))
    (query_raw : String → Effect World SqlFailure (Unit {0}))
    (persistence : MigrationPersistence World Failure Time Json) (now : Logged Time World → Time)
    (debug_text : Failure → String) (migration : Migration Time Json)
    (at_first : migration.status ≡ pending) (sql_migration : SqlMigration Schema Step) (fuel : ℕ)
    (enough : length sql_migration.corrected_steps < fuel) (world : World)
    (stores : (params : MigrationUpdateParams Time) (outside : World)
      → (persistence.update params outside).0 ≡ ok tt) where
  -- From a migration that is pending, with more fuel than there are corrected steps, and if each
  -- update is stored, `apply` over the SQL connector returns; the statuses that it stores lead to
  -- success where it returns no error, and to failure where it returns one, whose text is then stored.
  pub apply-Settled :
      (result : Outcome Failure (Unit {0}) × Logged Time World) × (apply
          (logged_persistence persistence)
          (SqlDatabaseStepApplier into_connector_error render_raw_sql (quiet query_raw))
          now
          debug_text
          fuel
          migration
          sql_migration
          ([], world)
        ≡ some result)
      × Settled debug_text migration result
  apply-Settled =
      apply_by into_connector_error render_raw_sql query_raw persistence now debug_text migration
        at_first sql_migration fuel enough world (Settled debug_text migration)
        (finished-Settled persistence now debug_text migration stores)
        (λ other. absurd (
          other
            (stores (record (update_params migration) { status = migration_in_progress }) world)))
