-- ===== src/Engine/ApplyEnds.antt =====
-- What the updates of an applied migration lead to, with the SQL connector:
-- migration-engine/connectors/migration-connector/src/migration_applier.rs.
use prisma_engines.Prelude.{
  ℕ, ◌<◌, String, ◌≡◌, refl, ◌≢◌, sym, subst, List, [], ◌∷◌, length, Outcome, ok, err, panic, some,
}
use prisma_engines.Engine.Ended.{at_start, apply_by}
use prisma_engines.Engine.Effects.{Effect, after, fail}
use prisma_engines.Engine.MigrationStatus.{
  MigrationStatus, pending, migration_in_progress, migration_success, migration_failure,
}
use prisma_engines.Engine.Migration.{Migration, update_params, mark_as_finished}
use prisma_engines.Engine.Persistence.{MigrationPersistence}
use prisma_engines.Engine.Steps.{SqlMigration, SqlDatabaseStepApplier}
use prisma_engines.Engine.Applier.{Ran, apply, finish_apply}
use prisma_engines.Engine.Diagram.{Change, Reached}
use prisma_engines.Engine.Logged.{Logged, quiet, logged, logged_persistence}
use prisma_engines.Engine.Statuses.{RanHolds}
use prisma_engines.Engine.SqlSilent.{after_log}

module _ {World Failure Time : Type 0} (error : Failure) where
  broken :
      Outcome Failure (Unit {0}) × Logged Time World
      → Outcome Failure (Unit {0}) × Logged Time World
  broken = after λ _. fail error

  -- An update that is tried because of an error ends with an error.
  broken_log : (r : Outcome Failure (Unit {0}) × Logged Time World) → (broken r).1.0 ≡ r.1.0
  unfolding broken
  broken_log r = after_log (λ _. fail error) r λ _ _. refl

  broken-ne-ok : (r : Outcome Failure (Unit {0}) × Logged Time World) → (broken r).0 ≢ ok tt
  unfolding broken
  broken-ne-ok (ok _, state) h = cc
  broken-ne-ok (err _, state) h = cc
  broken-ne-ok (panic, state) h = cc

-- Where the updates lead.
abbrev pub Led : {Failure : Type 0} → Outcome Failure (Unit {0}) → MigrationStatus → Type 0
Led (ok _) status = status ≡ migration_success
Led (err _) status = status ≢ pending
Led panic status = status ≢ pending

abbrev pub Traced :
    {World Failure Time Json : Type 0}
    → Migration Time Json
    → Outcome Failure (Unit {0}) × Logged Time World
    → Type 0
Traced migration result =
    (status : MigrationStatus) × Reached migration status result.1.0 × Led result.0 status

Led-of :
    {Failure : Type 0} (o : Outcome Failure (Unit {0})) (status : MigrationStatus)
    → o ≢ ok tt
    → status ≢ pending
    → Led o status
Led-of (ok _) status other h = absurd (other refl)
Led-of (err _) status other h = h
Led-of panic status other h = h

Led-success : {Failure : Type 0} (o : Outcome Failure (Unit {0})) → Led o migration_success
Led-success (ok _) = refl
Led-success (err _) = λ h. cc
Led-success panic = λ h. cc

module _ {World Failure Time Json : Type 0}
    (persistence : MigrationPersistence World Failure Time Json) (now : Logged Time World → Time)
    (debug_text : Failure → String) (migration : Migration Time Json) where
  finished-Traced :
      (r : Ran (Logged Time World) Failure Time)
      → RanHolds migration migration_in_progress r
      → Traced migration (finish_apply (logged_persistence persistence) now debug_text r)
  unfolding finish_apply mark_as_finished broken
  finished-Traced (ok _, p, state) (reached, at, about) = (
    migration_success,
    Reached.stored (mark_as_finished (now state) p) reached Change.succeed refl (record {
      same_name = about.same_name;
      same_new_name = about.same_new_name;
      same_revision = about.same_revision;
    }),
    Led-success (logged persistence.update (mark_as_finished (now state) p) state).0,
  )
  finished-Traced (err error, p, state) (reached, at, about) =
      let tried : Outcome Failure (Unit {0}) × Logged Time World =
        logged persistence.update
          (record p { status = migration_failure; errors = debug_text error ∷ [] }) state in
      (
        migration_failure,
        subst (Reached migration migration_failure) (sym (broken_log error tried)) (
            Reached.stored (record p { status = migration_failure; errors = debug_text error ∷ [] })
              reached Change.break refl
              (record {
                same_name = about.same_name;
                same_new_name = about.same_new_name;
                same_revision = about.same_revision;
              })),
        Led-of (broken error tried).0 migration_failure (broken-ne-ok error tried) (λ h. cc),
      )
  finished-Traced (panic, p, state) (reached, at, about) = (migration_in_progress, reached, λ h. cc)

module _ {World SqlFailure Failure Time Json Schema Step : Type 0}
    (into_connector_error : SqlFailure → Failure)
    (render_raw_sql : Step → Schema → Schema → Outcome SqlFailure (List String))
    (query_raw : String → Effect World SqlFailure (Unit {0}))
    (persistence : MigrationPersistence World Failure Time Json) (now : Logged Time World → Time)
    (debug_text : Failure → String) (migration : Migration Time Json)
    (at_first : migration.status ≡ pending) (sql_migration : SqlMigration Schema Step) (fuel : ℕ)
    (enough : length sql_migration.corrected_steps < fuel) (world : World) where
  -- From a migration that is pending, with more fuel than there are corrected steps, `apply` over the
  -- SQL connector returns. Each update that it tries is of this migration's row, and their statuses
  -- follow the diagram of `Change` from pending; where it returns no error, to success.
  pub apply-Traced :
      (result : Outcome Failure (Unit {0}) × Logged Time World) × (apply
          (logged_persistence persistence)
          (SqlDatabaseStepApplier into_connector_error render_raw_sql (quiet query_raw))
          now
          debug_text
          fuel
          migration
          sql_migration
          ([], world)
        ≡ some result)
      × Traced migration result
  apply-Traced =
      apply_by into_connector_error render_raw_sql query_raw persistence now debug_text migration
        at_first sql_migration fuel enough world (Traced migration)
        (finished-Traced persistence now debug_text migration)
        λ other. (
          migration_in_progress,
          (at_start into_connector_error render_raw_sql query_raw persistence now debug_text
              migration at_first sql_migration fuel enough world).0,
          Led-of
              (logged persistence.update
                (record (update_params migration) { status = migration_in_progress }) ([], world)).0
              migration_in_progress other λ h. cc,
        )
