-- ===== src/Sql/Differ/Table.antt =====
-- The differ of two tables and of two enums: migration-engine/connectors/sql-migration-connector/src/
-- sql_schema_differ/table.rs, enums.rs and index.rs, and the foreign keys' tests of
-- sql_schema_differ.rs.
use mathlib.Core.List.{filter_map}
use mathlib.Core.Option
use prisma_engines.Prelude.{
  String, ◌==◌, not, ◌&&◌, Bool, true, false, Option, none, some, is_none, List, find, any, filter,
}
use prisma_engines.Sql.Schema.{
  names_eq, action_eq, index_type_eq, Column, Index, ForeignKey, Enum, Table,
}

unfoldable pub indexes_match : Index → Index → Bool
indexes_match first second =
    names_eq first.columns second.columns && index_type_eq first.tpe second.tpe

unfoldable pub foreign_keys_match : ForeignKey → ForeignKey → Bool
foreign_keys_match previous next =
    (previous.referenced_table == next.referenced_table)
    && (names_eq previous.referenced_columns next.referenced_columns
        && (names_eq previous.columns next.columns
            && action_eq previous.on_delete_action next.on_delete_action))

unfoldable pub foreign_key_changed : Option ForeignKey → Option ForeignKey → Bool
foreign_key_changed none none = false
foreign_key_changed (some previous) (some next) = not (foreign_keys_match previous next)
foreign_key_changed _ _ = true

unfoldable pub enums_match : Enum → Enum → Bool
enums_match previous next = previous.name == next.name

-- `created_values` and `dropped_values` of `EnumDiffer`.
unfoldable pub created_values : Enum → Enum → List String
created_values previous next =
    filter
      (λ next_value. not (any (λ previous_value. previous_value == next_value) previous.values))
      next.values

unfoldable pub dropped_values : Enum → Enum → List String
dropped_values previous next =
    filter (λ previous_value. not (any (λ next_value. previous_value == next_value) next.values))
      previous.values

module _ {Value : Type 0} where
  unfoldable pub tables_match : Table Value → Table Value → Bool
  tables_match previous next = previous.name == next.name

  unfoldable pub columns_match : Column Value → Column Value → Bool
  columns_match a b = a.name == b.name

  unfoldable pub index_covers_fk : Table Value → Index → Bool
  index_covers_fk table index = any (λ fk. names_eq fk.columns index.columns) table.foreign_keys

  -- `TableDiffer`: the previous table and the next one.
  unfoldable pub column_pairs : Table Value → Table Value → List (Column Value × Column Value)
  column_pairs previous next =
      filter_map
        (λ previous_column.
          Option.map (λ next_column. (previous_column, next_column))
            (find (columns_match previous_column) next.columns))
        previous.columns

  unfoldable pub dropped_columns : Table Value → Table Value → List (Column Value)
  dropped_columns previous next =
      filter (λ previous_column. is_none (find (columns_match previous_column) next.columns))
        previous.columns

  unfoldable pub added_columns : Table Value → Table Value → List (Column Value)
  added_columns previous next =
      filter
        (λ next_column.
          is_none
            (find (λ previous_column. columns_match previous_column next_column) previous.columns))
        next.columns

  unfoldable pub created_foreign_keys : Table Value → Table Value → List ForeignKey
  created_foreign_keys previous next =
      filter
        (λ next_fk.
          is_none
            (find (λ previous_fk. foreign_keys_match previous_fk next_fk) previous.foreign_keys))
        next.foreign_keys

  unfoldable pub dropped_foreign_keys : Table Value → Table Value → List ForeignKey
  dropped_foreign_keys previous next =
      filter (λ previous_fk. is_none (find (foreign_keys_match previous_fk) next.foreign_keys))
        previous.foreign_keys

  unfoldable pub created_indexes : Table Value → Table Value → List Index
  created_indexes previous next =
      filter
        (λ next_index.
          not (any (λ previous_index. indexes_match previous_index next_index) previous.indices))
        next.indices

  unfoldable pub dropped_indexes : Table Value → Table Value → List Index
  dropped_indexes previous next =
      filter (λ previous_index. not (any (indexes_match previous_index) next.indices))
        previous.indices

  -- An index and one of the same content under another name.
  unfoldable pub index_pairs : Table Value → Table Value → List (Index × Index)
  index_pairs previous next =
      filter_map
        (λ previous_index.
          Option.map (λ renamed_index. (previous_index, renamed_index))
            (find
              (λ next_index.
                indexes_match previous_index next_index
                && not (previous_index.name == next_index.name))
              next.indices))
        previous.indices
