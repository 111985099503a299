-- ===== src/Engine/Logged.antt =====
-- Operations of migration-engine/connectors/migration-connector/src/migration_persistence.rs that
-- also write down the updates that are tried, the newest first: an observer of the applier.
use prisma_engines.Prelude.{String, List, ◌∷◌}
use prisma_engines.Engine.Effects.{Effect}
use prisma_engines.Engine.Migration.{MigrationUpdateParams}
use prisma_engines.Engine.Persistence.{MigrationPersistence}

abbrev pub Logged : Type 0 → Type 0 → Type 0
Logged Time World = List (MigrationUpdateParams Time) × World

module _ {World Failure Time : Type 0} where
  abbrev pub kept : {A : Type 0} → Effect World Failure A → Effect (Logged Time World) Failure A
  kept effect (log, world) = ((effect world).0, (log, (effect world).1))

  abbrev pub logged :
      (MigrationUpdateParams Time → Effect World Failure (Unit {0}))
      → MigrationUpdateParams Time
      → Effect (Logged Time World) Failure (Unit {0})
  logged update params (log, world) =
      ((update params world).0, (params ∷ log, (update params world).1))

  abbrev pub logged_persistence :
      {Json : Type 0}
      → MigrationPersistence World Failure Time Json
      → MigrationPersistence (Logged Time World) Failure Time Json
  logged_persistence persistence = record {
    init = kept persistence.init;
    reset = kept persistence.reset;
    last = kept persistence.last;
    by_name = λ name. kept (persistence.by_name name);
    load_all = kept persistence.load_all;
    create = λ migration. kept (persistence.create migration);
    update = logged persistence.update;
  }

  -- A connection that tries no update.
  abbrev pub quiet :
      (String → Effect World Failure (Unit {0}))
      → String
      → Effect (Logged Time World) Failure (Unit {0})
  quiet query_raw sql = kept (query_raw sql)
