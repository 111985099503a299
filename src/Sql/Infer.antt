-- ===== src/Sql/Infer.antt =====
-- The steps between two SQL schemas: migration-engine/connectors/sql-migration-connector/src/
-- sql_database_migration_inferrer.rs.
use prisma_engines.Prelude.{
  String, ◌==◌, not, ◌&&◌, Bool, true, false, Option, none, some, if◌then◌else◌, List, [], ◌∷◌,
  ◌++◌, map, filter, Outcome, ok, err, panic, ◌>>=◌,
}
use prisma_engines.Engine.Steps.{SqlMigration}
use prisma_engines.Sql.Schema.{
  family_eq, contains, ColumnTypeFamily, DefaultValue, PrimaryKey, Table, SqlSchema,
  SqlSchema_empty, table, column_bang,
}
use prisma_engines.Sql.Steps.{TableChange, SqlMigrationStep}
use prisma_engines.Sql.Differ.Column.{DiffingOptions}
use prisma_engines.Sql.Differ.Diff.{SqlFamily, migration_table_name, into_steps, diff}
use prisma_engines.Sql.Sqlite.{fix}

unfoldable pub is_sqlite : SqlFamily → Bool
is_sqlite SqlFamily.sqlite = true
is_sqlite _ = false

-- `find(…).is_some()` by a test that may panic.
unfoldable pub find_some : {A : Type 0} → (A → Outcome String Bool) → List A → Outcome String Bool
find_some test [] = ok false
find_some test (x ∷ xs) =
    test x >>= λ found. elim found [ true ↦ ok true | false ↦ find_some test xs ]

unfoldable pub key_columns : Option PrimaryKey → List String
key_columns none = []
key_columns (some key) = key.columns

module _ {Value : Type 0} where
  unfoldable pub changes_id_column : Table Value → TableChange Value → Outcome String Bool
  changes_id_column current_table (TableChange.alter_column alter) =
      column_bang current_table alter.name >>= λ current_column. ok (
        contains (key_columns current_table.primary_key) alter.name
        && not (family_eq current_column.tpe.family alter.column.tpe.family))
  changes_id_column current_table _ = ok false

  abbrev pub in_table :
      (Table Value → Outcome String Bool) → Outcome String (Table Value) → Outcome String Bool
  in_table test (ok current_table) = test current_table
  in_table test (err _) = ok false
  in_table test panic = panic

  unfoldable pub changes_id_type : SqlSchema Value → SqlMigrationStep Value → Outcome String Bool
  changes_id_type from (SqlMigrationStep.alter_table alter) =
      in_table (λ current_table. find_some (changes_id_column current_table) alter.changes)
        (table from alter.table.name)
  changes_id_type from _ = ok false

  -- The steps that drop every table but the migration table.
  unfoldable pub drop_all : SqlSchema Value → List (SqlMigrationStep Value)
  drop_all from =
      map (λ t. SqlMigrationStep.drop_table (record { name = t.name }))
        (filter (λ t. not (t.name == migration_table_name)) from.tables)

module _ {Value : Type 0} (value_eq : Value → Value → Bool) (options : DiffingOptions)
    (sql_family : SqlFamily) where
  unfoldable pub fix_id_column_type_change :
      SqlSchema Value
      → SqlSchema Value
      → List (SqlMigrationStep Value)
      → Outcome String (List (SqlMigrationStep Value))
  fix_id_column_type_change from to steps =
      find_some (changes_id_type from) steps >>= λ has_id_type_change. ok (
        if has_id_type_change
        then drop_all from ++ into_steps (diff value_eq options sql_family SqlSchema_empty to)
        else steps)

  module _ (render_default : DefaultValue Value → ColumnTypeFamily → Outcome String String)
      (schema_name : String) where
    unfoldable pub infer_database_migration_steps_and_fix :
        SqlSchema Value
        → SqlSchema Value
        → Outcome String (List (SqlMigrationStep Value) × List (SqlMigrationStep Value))
    infer_database_migration_steps_and_fix from to =
        let difference = diff value_eq options sql_family from to in
        (if is_sqlite sql_family
          then fix render_default schema_name from to difference
          else fix_id_column_type_change from to (into_steps difference))
        >>= λ corrected_steps. ok (into_steps difference, corrected_steps)

    unfoldable pub infer :
        SqlSchema Value
        → SqlSchema Value
        → Outcome String (SqlMigration (SqlSchema Value) (SqlMigrationStep Value))
    infer current_database_schema expected_database_schema =
        infer_database_migration_steps_and_fix current_database_schema expected_database_schema
        >>= λ forward.
            infer_database_migration_steps_and_fix expected_database_schema current_database_schema
            >>= λ back. ok (record {
              before = current_database_schema;
              after = expected_database_schema;
              original_steps = forward.0;
              corrected_steps = forward.1;
              rollback = back.1;
            })
