-- ===== src/Sql/Total.antt =====
-- A migration is always inferred for Postgres and MySQL: migration-engine/connectors/
-- sql-migration-connector/src/sql_database_migration_inferrer.rs.
use prisma_engines.Prelude.{
  String, ◌≡◌, refl, Bool, false, List, Unique, if◌then◌else◌, Outcome, ok, ◌++◌,
}
use prisma_engines.Engine.Steps.{SqlMigration}
use prisma_engines.Sql.Schema.{ColumnTypeFamily, DefaultValue, Table, SqlSchema, SqlSchema_empty}
use prisma_engines.Sql.Steps.{SqlMigrationStep}
use prisma_engines.Sql.Differ.Column.{DiffingOptions}
use prisma_engines.Sql.Differ.Diff.{SqlFamily, into_steps, diff}
use prisma_engines.Sql.Infer.{
  find_some, changes_id_type, fix_id_column_type_change, infer_database_migration_steps_and_fix,
  infer, is_sqlite, drop_all,
}
use prisma_engines.Sql.Answers.{find_some-Answers}
use prisma_engines.Sql.Fixable.{into_steps-Fixable}

module _ {Value : Type 0} (value_eq : Value → Value → Bool) (options : DiffingOptions)
    (render_default : DefaultValue Value → ColumnTypeFamily → Outcome String String)
    (schema_name : String) (family : SqlFamily) (server : is_sqlite family ≡ false) where
  corrected :
      (from to : SqlSchema Value)
      → Unique (λ (t : Table Value). t.name) from.tables
      → (steps : List (SqlMigrationStep Value)) × (infer_database_migration_steps_and_fix value_eq
            options family render_default schema_name from to
          ≡ ok (into_steps (diff value_eq options family from to), steps))
  unfolding infer_database_migration_steps_and_fix fix_id_column_type_change
  corrected from to u =
      let found : (b : Bool) × (find_some (changes_id_type from)
              (into_steps (diff value_eq options family from to))
            ≡ ok b) =
        find_some-Answers (changes_id_type from) (into_steps (diff value_eq options family from to))
          (into_steps-Fixable from u value_eq options family to) in
      (
        (if found.0
            then drop_all from ++ into_steps (diff value_eq options family SqlSchema_empty to)
            else into_steps (diff value_eq options family from to)),
        rw (server, found.1) refl,
      )

  -- For a database that is not SQLite, and schemas whose tables have different names, `infer` returns
  -- a migration: it keeps the two schemas, and its original steps are those of their difference.
  pub infer_total :
      (from to : SqlSchema Value)
      → Unique (λ (t : Table Value). t.name) from.tables
      → Unique (λ (t : Table Value). t.name) to.tables
      → (migration : SqlMigration (SqlSchema Value) (SqlMigrationStep Value)) × (infer value_eq
            options family render_default schema_name from to
          ≡ ok migration)
        × (migration.before ≡ from)
        × (migration.after ≡ to)
        × (migration.original_steps ≡ into_steps (diff value_eq options family from to))
  unfolding infer
  infer_total from to u v =
      let forward : (steps : List (SqlMigrationStep Value))
          × (infer_database_migration_steps_and_fix value_eq options family render_default
                schema_name from to
              ≡ ok (into_steps (diff value_eq options family from to), steps)) =
        corrected from to u in
      let back : (steps : List (SqlMigrationStep Value)) × (infer_database_migration_steps_and_fix
              value_eq options family render_default schema_name to from
            ≡ ok (into_steps (diff value_eq options family to from), steps)) =
        corrected to from v in
      (
        record {
          before = from;
          after = to;
          original_steps = into_steps (diff value_eq options family from to);
          corrected_steps = forward.0;
          rollback = back.0;
        },
        rw (forward.1, back.1) refl,
        refl,
        refl,
        refl,
      )
