-- ===== src/Engine/Ended.antt =====
-- How a migration ends that the SQL connector applies:
-- migration-engine/connectors/migration-connector/src/migration_applier.rs.
use mathlib.Core.Option
use prisma_engines.Prelude.{
  ℕ, ◌<◌, String, ◌≡◌, refl, true, ap, ◌≢◌, sym, subst, List, [], ◌∷◌, length, Outcome, ok, err,
  panic, Option, some,
}
use prisma_engines.Engine.Effects.{Effect}
use prisma_engines.Engine.MigrationStatus
use prisma_engines.Engine.MigrationStatus.{
  MigrationStatus, pending, migration_in_progress, migration_success, migration_failure, is_pending,
}
use prisma_engines.Engine.Migration.{Migration, MigrationUpdateParams, update_params}
use prisma_engines.Engine.Persistence.{MigrationPersistence}
use prisma_engines.Engine.Steps.{SqlMigration, SqlDatabaseStepApplier}
use prisma_engines.Engine.Applier.{
  Ran, apply, go_forward, finish_apply, when_updated, count_applied,
}
use prisma_engines.Engine.InOrder.{in_order}
use prisma_engines.Engine.SqlInOrder.{execute_sql, go_forward-in_order}
use prisma_engines.Engine.Diagram.{Change, Concerns, Reached, Holds}
use prisma_engines.Engine.Logged.{Logged, quiet, logged, logged_persistence}
use prisma_engines.Engine.Statuses.{RanHolds, in_order-Holds}
use prisma_engines.Engine.SqlSilent.{execute_sql_log}

pending_lem :
    {status : MigrationStatus} → status ≡ pending → MigrationStatus.is_pending status ≡ true
unfolding MigrationStatus.is_pending
pending_lem e = ap MigrationStatus.is_pending e

module _ {World SqlFailure Failure Time Json Schema Step : Type 0}
    (into_connector_error : SqlFailure → Failure)
    (render_raw_sql : Step → Schema → Schema → Outcome SqlFailure (List String))
    (query_raw : String → Effect World SqlFailure (Unit {0}))
    (persistence : MigrationPersistence World Failure Time Json) (now : Logged Time World → Time)
    (debug_text : Failure → String) (migration : Migration Time Json)
    (at_first : migration.status ≡ pending) (sql_migration : SqlMigration Schema Step) (fuel : ℕ)
    (enough : length sql_migration.corrected_steps < fuel) (world : World) where
  abbrev pub Result : Type 0
  Result = Outcome Failure (Unit {0}) × Logged Time World

  abbrev pub started : MigrationUpdateParams Time
  started = record (update_params migration) { status = migration_in_progress }

  abbrev pub finished : Ran (Logged Time World) Failure Time → Result
  finished = finish_apply (logged_persistence persistence) now debug_text

  abbrev pub runs : Option Result
  runs =
      apply (logged_persistence persistence)
        (SqlDatabaseStepApplier into_connector_error render_raw_sql (quiet query_raw)) now
        debug_text fuel migration sql_migration ([], world)

  pub at_start : Holds migration migration_in_progress started (started ∷ [])
  unfolding update_params
  at_start =
      let about : Concerns migration started = record {
        same_name = refl;
        same_new_name = refl;
        same_revision = refl;
      } in
      (
        Reached.stored started Reached.none_yet
            (subst (λ s. Change s migration_in_progress) (sym at_first) Change.start) refl about,
        refl,
        about,
      )

  module _ (P : Result → Type 0)
      (after_loop : (r : Ran (Logged Time World) Failure Time)
        → RanHolds migration migration_in_progress r
        → P (finished r))
      (not_started : (logged persistence.update started ([], world)).0 ≢ ok tt
        → P (logged persistence.update started ([], world))) where
    begun :
        (r : Result)
        → r.1.0 ≡ started ∷ []
        → (r.0 ≢ ok tt → P r)
        → (result : Result) × (when_updated
              (go_forward
                (logged_persistence persistence)
                (SqlDatabaseStepApplier into_connector_error render_raw_sql (quiet query_raw))
                fuel
                sql_migration
                started)
              finished
              r
            ≡ some result)
          × P result
    begun (ok _, state) e other =
        let looped : Ran (Logged Time World) Failure Time =
          in_order (logged persistence.update) count_applied
            (execute_sql into_connector_error render_raw_sql (quiet query_raw) sql_migration.before
              sql_migration.after)
            sql_migration.corrected_steps started state in
        let holds : RanHolds migration migration_in_progress looped =
          in_order-Holds migration migration_in_progress Change.progress persistence.update
            count_applied
            (λ p. (
              refl,
              λ about. record {
                same_name = about.same_name;
                same_new_name = about.same_new_name;
                same_revision = about.same_revision;
              },
            ))
            (execute_sql into_connector_error render_raw_sql (quiet query_raw) sql_migration.before
              sql_migration.after)
            (execute_sql_log into_connector_error render_raw_sql query_raw sql_migration.before
              sql_migration.after)
            sql_migration.corrected_steps started state
            (subst (Holds migration migration_in_progress started) (sym e) at_start) in
        (
          finished looped,
          ap (Option.map finished) (
              go_forward-in_order into_connector_error render_raw_sql (quiet query_raw)
                (logged_persistence persistence) sql_migration fuel started state enough),
          after_loop looped holds,
        )
    begun (err error, state) e other = ((err error, state), refl, other λ h. cc)
    begun (panic, state) e other = ((panic, state), refl, other λ h. cc)

    pub apply_by : (result : Result) × (runs ≡ some result) × P result
    unfolding apply
    apply_by =
        let ready : MigrationStatus.is_pending migration.status ≡ true = pending_lem at_first in
        rw ready (begun (logged persistence.update started ([], world)) refl not_started)
