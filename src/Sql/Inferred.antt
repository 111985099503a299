-- ===== src/Sql/Inferred.antt =====
-- The migration that is inferred between an SQL schema and itself: migration-engine/connectors/
-- sql-migration-connector/src/sql_database_migration_inferrer.rs.
use prisma_engines.Prelude.{String, ◌≡◌, refl, Bool, true, [], Outcome, ok}
use prisma_engines.Sql.Schema.{ColumnTypeFamily, DefaultValue, SqlSchema}
use prisma_engines.Sql.Steps.{no_entries}
use prisma_engines.Sql.Differ.Column.{DiffingOptions}
use prisma_engines.Sql.Differ.Diff.{SqlFamily}
use prisma_engines.Sql.Sqlite.{fix, fix_steps}
use prisma_engines.Sql.Infer.{
  find_some, fix_id_column_type_change, infer_database_migration_steps_and_fix, infer, is_sqlite,
}
use prisma_engines.Sql.IdleTable.{WellDescribed}
use prisma_engines.Sql.Idle.{diff_self}

module _ {Value : Type 0} (value_eq : Value → Value → Bool)
    (value_eq_refl : (v : Value) → value_eq v v ≡ true) (options : DiffingOptions)
    (render_default : DefaultValue Value → ColumnTypeFamily → Outcome String String)
    (schema_name : String) (s : SqlSchema Value) (w : WellDescribed s) where
  steps_self :
      (family : SqlFamily)
      → infer_database_migration_steps_and_fix value_eq options family render_default schema_name s
          s
        ≡ ok ([], [])
  unfolding infer_database_migration_steps_and_fix is_sqlite fix fix_steps no_entries
      fix_id_column_type_change find_some
  steps_self SqlFamily.sqlite =
      rw (diff_self s w options value_eq value_eq_refl SqlFamily.sqlite) refl
  steps_self SqlFamily.mysql =
      rw (diff_self s w options value_eq value_eq_refl SqlFamily.mysql) refl
  steps_self SqlFamily.postgres =
      rw (diff_self s w options value_eq value_eq_refl SqlFamily.postgres) refl

  -- On any database, the migration that is inferred from a `WellDescribed` schema to itself has no
  -- steps, no corrected steps and no rollback, if equal values of defaults are equal by their test.
  pub infer_unchanged :
      (family : SqlFamily)
      → infer value_eq options family render_default schema_name s s
        ≡ ok (record {
          before = s;
          after = s;
          original_steps = [];
          corrected_steps = [];
          rollback = [];
        })
  unfolding infer
  infer_unchanged family = rw (steps_self family) refl
