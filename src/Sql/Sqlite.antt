-- ===== src/Sql/Sqlite.antt =====
-- The corrections for SQLite: migration-engine/connectors/sql-migration-connector/src/
-- sql_database_migration_inferrer/sqlite.rs, with `Quoted.sqlite_ident` of sql_renderer/common.rs.
-- How a default is rendered is a parameter.
use Prim.Native.String as Text
use prisma_engines.Prelude.{
  String, ◌==◌, not, ◌&&◌, Bool, true, is_some, if◌then◌else◌, List, [], ◌∷◌, ◌++◌, map, find, any,
  filter, Outcome, ok, ◌>>=◌, unwrap,
}
use prisma_engines.Ast.Render.{join}
use prisma_engines.Sql.Schema.{
  ColumnArity, arity_eq, ColumnTypeFamily, Column, DefaultValue, Table, SqlSchema, has_table, table,
  contains,
}
use prisma_engines.Sql.Steps.{TableChange, AlterTable, SqlMigrationStep, no_entries}
use prisma_engines.Sql.Differ.Table.{column_pairs}
use prisma_engines.Sql.Differ.Diff.{SqlSchemaDiff, into_steps}

unfoldable pub sqlite_ident : String → String
sqlite_ident name = join ("\"" ∷ name ∷ "\"" ∷ [])

-- A `peekable` loop that writes a comma after each entry that has one behind it.
unfoldable pub comma_separated : List String → String
comma_separated [] = ""
comma_separated (x ∷ []) = x
comma_separated (x ∷ y ∷ rest) = join (x ∷ ", " ∷ comma_separated (y ∷ rest) ∷ [])

unfoldable pub index_steps : {Value : Type 0} → Table Value → List (SqlMigrationStep Value)
index_steps next =
    map (λ index. SqlMigrationStep.create_index (record { table = next.name; index = index }))
      next.indices

module _ {Value : Type 0} where
  -- A change that SQLite's ALTER TABLE cannot make.
  unfoldable pub change_needs_fix : TableChange Value → Bool
  change_needs_fix (TableChange.add_column add) = arity_eq add.column.tpe.arity ColumnArity.required
  change_needs_fix (TableChange.drop_column _) = true
  change_needs_fix (TableChange.alter_column _) = true
  change_needs_fix (TableChange.drop_foreign_key _) = true

  unfoldable pub needs_fix : AlterTable Value → Bool
  needs_fix alter = is_some (find change_needs_fix alter.changes)

  -- A column whose missing values take the new default.
  unfoldable pub became_required_with_a_default : Column Value × Column Value → Bool
  became_required_with_a_default (previous, next) =
      not (arity_eq previous.tpe.arity next.tpe.arity)
      && (arity_eq next.tpe.arity ColumnArity.required && is_some next.default)

  -- The names of the pairs that are not among the excluded ones.
  unfoldable pub intersection_columns :
      List (Column Value × Column Value) → List (Column Value × Column Value) → List String
  intersection_columns excluded pairs =
      map (λ pair. pair.0.name)
        (filter (λ pair. not (any (λ other. other.0.name == pair.0.name) excluded)) pairs)

module _ {Value : Type 0}
    (render_default : DefaultValue Value → ColumnTypeFamily → Outcome String String)
    (schema_name : String) where
  unfoldable pub coalesced : Column Value × Column Value → Outcome String String
  coalesced (previous, next) = unwrap next.default >>= λ default.
      render_default default next.tpe.family >>= λ rendered. ok (
        join (
          "coalesce("
          ∷ sqlite_ident previous.name
          ∷ ", "
          ∷ rendered
          ∷ ") AS "
          ∷ sqlite_ident previous.name
          ∷ []))

  unfoldable pub all_coalesced : List (Column Value × Column Value) → Outcome String (List String)
  all_coalesced [] = ok []
  all_coalesced (pair ∷ rest) =
      coalesced pair >>= λ first. all_coalesced rest >>= λ more. ok (first ∷ more)

  unfoldable pub copy_current_table_into_new_table :
      Table Value → Table Value → Outcome String (SqlMigrationStep Value)
  copy_current_table_into_new_table previous next =
      let pairs = column_pairs previous next in
      let required = filter became_required_with_a_default pairs in
      let kept = intersection_columns required pairs in
      all_coalesced required >>= λ sources. ok (
        SqlMigrationStep.raw_sql (
          join (
            "INSERT INTO "
            ∷ sqlite_ident schema_name
            ∷ "."
            ∷ sqlite_ident next.name
            ∷ " ("
            ∷ comma_separated (map sqlite_ident (kept ++ map (λ pair. pair.0.name) required))
            ∷ ") SELECT "
            ∷ comma_separated (map sqlite_ident kept ++ sources)
            ∷ " FROM "
            ∷ sqlite_ident schema_name
            ∷ "."
            ∷ sqlite_ident previous.name
            ∷ [])))

  unfoldable pub fix_table :
      Table Value → Table Value → Outcome String (List (SqlMigrationStep Value))
  fix_table current next =
      let name_of_temporary_table = Text.◌++◌ "new_" next.name in
      let temporary_table = record next { name = name_of_temporary_table } in
      copy_current_table_into_new_table current temporary_table >>= λ copy. ok (
        SqlMigrationStep.create_table (record { table = temporary_table })
        ∷ copy
        ∷ SqlMigrationStep.drop_table (record { name = current.name })
        ∷ SqlMigrationStep.rename_table name_of_temporary_table next.name
        ∷ index_steps next)

  module _ (current_database_schema next_database_schema : SqlSchema Value) where
    unfoldable pub sqlite_fix_table : String → Outcome String (List (SqlMigrationStep Value))
    sqlite_fix_table table_name = table current_database_schema table_name >>= λ current_table.
        table next_database_schema table_name >>= λ next_table. fix_table current_table next_table

    -- What one step becomes, and the tables that are fixed after it.
    unfoldable pub fix_whole_table :
        List String → String → Outcome String (List (SqlMigrationStep Value) × List String)
    fix_whole_table fixed_tables name =
        sqlite_fix_table name >>= λ steps. ok (steps, fixed_tables ++ name ∷ [])

    unfoldable pub fix_step :
        List String
        → SqlMigrationStep Value
        → Outcome String (List (SqlMigrationStep Value) × List String)
    fix_step fixed_tables (SqlMigrationStep.alter_table alter) =
        if needs_fix alter && has_table current_database_schema alter.table.name
        then fix_whole_table fixed_tables alter.table.name
        else ok (SqlMigrationStep.alter_table alter ∷ [], fixed_tables)
    fix_step fixed_tables (SqlMigrationStep.add_foreign_key add) =
        if contains fixed_tables add.table
        then ok ([], fixed_tables)
        else ok (SqlMigrationStep.add_foreign_key add ∷ [], fixed_tables)
    fix_step fixed_tables (SqlMigrationStep.create_index create) =
        if contains fixed_tables create.table
        then ok ([], fixed_tables)
        else ok (SqlMigrationStep.create_index create ∷ [], fixed_tables)
    fix_step fixed_tables (SqlMigrationStep.alter_index alter) =
        fix_whole_table fixed_tables alter.table
    fix_step fixed_tables step = ok (step ∷ [], fixed_tables)

    unfoldable pub fix_steps :
        List String → List (SqlMigrationStep Value) → Outcome String (List (SqlMigrationStep Value))
    fix_steps fixed_tables [] = ok []
    fix_steps fixed_tables (step ∷ steps) = fix_step fixed_tables step >>= λ done.
        fix_steps done.1 steps >>= λ more. ok (done.0 ++ more)

    -- The pragmas stand around the steps, if there are any.
    unfoldable pub fix : SqlSchemaDiff Value → Outcome String (List (SqlMigrationStep Value))
    fix diff = fix_steps [] (into_steps diff) >>= λ result. ok (
        if no_entries result
        then []
        else SqlMigrationStep.raw_sql "PRAGMA foreign_keys=OFF;"
          ∷ (result
              ++ (SqlMigrationStep.raw_sql
                    (join ("PRAGMA " ∷ sqlite_ident schema_name ∷ ".foreign_key_check;" ∷ []))
                  ∷ SqlMigrationStep.raw_sql "PRAGMA foreign_keys=ON;"
                  ∷ [])))
