-- ===== src/Sql/Differ/Changes.antt =====
-- The changes between two tables, and the entries that the differ of two schemas lists for one:
-- migration-engine/connectors/sql-migration-connector/src/sql_schema_differ.rs.
use mathlib.Core.List.{filter_map}
use mathlib.Core.Option
use prisma_engines.Prelude.{
  String, ◌||◌, Bool, Option, none, some, if◌then◌else◌, List, [], ◌∷◌, ◌++◌, map, find,
}
use prisma_engines.Sql.Schema.{Column, Index, ForeignKey, Enum, Table, foreign_key_for_column}
use prisma_engines.Sql.Steps.{
  AddForeignKey, CreateIndex, AlterIndex, AlterEnum, TableChange, AlterTable, no_entries, is_empty,
}
use prisma_engines.Sql.Differ.Column.{DiffingOptions, differs_in_something}
use prisma_engines.Sql.Differ.Table.{
  enums_match, created_values, dropped_values, column_pairs, dropped_columns, added_columns,
  dropped_foreign_keys, foreign_key_changed,
}

unfoldable pub create_table_indexes : String → List Index → List CreateIndex
create_table_indexes name = map λ index. record { table = name; index = index }

unfoldable pub add_table_foreign_keys : String → List ForeignKey → List AddForeignKey
add_table_foreign_keys name = map λ fk. record { table = name; foreign_key = fk }

unfoldable pub rename_table_indexes : String → List (Index × Index) → List AlterIndex
rename_table_indexes name =
    map λ pair. record { table = name; index_name = pair.0.name; index_new_name = pair.1.name }

unfoldable pub enum_pairs : List Enum → List Enum → List (Enum × Enum)
enum_pairs previous next =
    filter_map (λ e. Option.map (λ next_enum. (e, next_enum)) (find (enums_match e) next)) previous

-- The changes of an enum's values, if there are any.
unfoldable pub alter_enum : Enum → Enum → Option AlterEnum
alter_enum previous next =
    let step : AlterEnum = record {
      name = previous.name;
      created_variants = created_values previous next;
      dropped_variants = dropped_values previous next;
    } in
    if is_empty step then none else some step

module _ {Value : Type 0} where
  -- The changes of one table.
  unfoldable pub drop_columns : Table Value → Table Value → List (TableChange Value)
  drop_columns previous next =
      map (λ column. TableChange.drop_column (record { name = column.name }))
        (dropped_columns previous next)

  unfoldable pub add_columns : Table Value → Table Value → List (TableChange Value)
  add_columns previous next =
      map (λ column. TableChange.add_column (record { column = column }))
        (added_columns previous next)

  unfoldable pub drop_foreign_keys : Table Value → Table Value → List (TableChange Value)
  drop_foreign_keys previous next =
      map (λ name. TableChange.drop_foreign_key (record { constraint_name = name }))
        (filter_map (λ fk. fk.constraint_name) (dropped_foreign_keys previous next))

  -- The foreign keys of a table that is dropped, each in a step of its own.
  unfoldable pub drop_own_foreign_keys : Table Value → List (AlterTable Value)
  drop_own_foreign_keys dropped =
      map
        (λ name. record {
          table = dropped;
          changes = TableChange.drop_foreign_key (record { constraint_name = name }) ∷ [];
        })
        (filter_map (λ fk. fk.constraint_name) dropped.foreign_keys)

module _ {Value : Type 0} (value_eq : Value → Value → Bool) (options : DiffingOptions) where
  unfoldable pub alter_pair :
      Table Value → Table Value → Column Value × Column Value → Option (TableChange Value)
  alter_pair previous next (previous_column, next_column) =
      if differs_in_something value_eq options previous_column next_column
        || foreign_key_changed (foreign_key_for_column previous previous_column.name)
            (foreign_key_for_column next next_column.name)
      then some
          (TableChange.alter_column (record { name = previous_column.name; column = next_column }))
      else none

  unfoldable pub alter_columns : Table Value → Table Value → List (TableChange Value)
  alter_columns previous next = filter_map (alter_pair previous next) (column_pairs previous next)

  unfoldable pub table_changes : Table Value → Table Value → List (TableChange Value)
  table_changes previous next =
      drop_foreign_keys previous next
      ++ (drop_columns previous next ++ (add_columns previous next ++ alter_columns previous next))

  unfoldable pub alter_table : Table Value → Table Value → Option (AlterTable Value)
  alter_table previous next =
      let changes = table_changes previous next in
      if no_entries changes then none else some (record { table = next; changes = changes })
