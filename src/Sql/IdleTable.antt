-- ===== src/Sql/IdleTable.antt =====
-- The changes between a table, or an enum, and itself:
-- migration-engine/connectors/sql-migration-connector/src/sql_schema_differ.rs.
use mathlib.Core.List.{filter_map}
use mathlib.Core.Option
use prisma_engines.Prelude.{
  String, ◌≡◌, refl, ap, ◌==◌, eq_refl, not, ◌&&◌, Bool, true, false, none, List, [], All, Unique,
  All-map, All-Has, find_unique, find-none, filter_map-nil,
}
use prisma_engines.Sql.Schema.{Column, Index, Enum, Table, SqlSchema, foreign_key_for_column}
use prisma_engines.Sql.Steps.{no_entries, is_empty}
use prisma_engines.Sql.Differ.Column.{DiffingOptions}
use prisma_engines.Sql.Differ.Table.{
  indexes_match, foreign_keys_match, created_values, dropped_values, columns_match, column_pairs,
  dropped_columns, added_columns, created_foreign_keys, dropped_foreign_keys, created_indexes,
  dropped_indexes, index_pairs,
}
use prisma_engines.Sql.Differ.Changes.{
  alter_enum, drop_columns, add_columns, drop_foreign_keys, alter_pair, alter_columns,
  table_changes, alter_table,
}
use prisma_engines.Sql.Reflexive.{
  indexes_match_refl, foreign_keys_match_refl, foreign_key_changed_self, differs_self,
}
use prisma_engines.Sql.SelfPairs.{FindsItself, filter_map-paired, none_missing, none_missing_by_any}

-- Two indexes of the same columns and kind under different names.
abbrev pub twins : Index → Index → Bool
twins i j = indexes_match i j && not (i.name == j.name)

abbrev pub NoTwins : List Index → Type 0
NoTwins indices = All (λ i. All (λ j. twins i j ≡ false) indices) indices

-- Different names of tables, of the columns of each, and of enums, and no twins.
pub record WellDescribed {Value : Type 0} (s : SqlSchema Value) : Type 0 where
  pub tables : Unique (λ (t : Table Value). t.name) s.tables
  pub enums : Unique (λ (e : Enum). e.name) s.enums
  pub columns : All (λ (t : Table Value). Unique (λ (c : Column Value). c.name) t.columns) s.tables
  pub indices : All (λ (t : Table Value). NoTwins t.indices) s.tables

pub finds_itself :
    {A : Type 0} (ident : A → String) (xs : List A)
    → Unique ident xs
    → FindsItself (λ a b. ident a == ident b) xs xs
finds_itself ident xs u = All-map xs (λ a m. find_unique ident xs a u m) (All-Has xs)

module _ {Value : Type 0} (t : Table Value) where
  pub created_indexes_self : created_indexes t t ≡ []
  unfolding created_indexes
  created_indexes_self = none_missing_by_any (λ i j. indexes_match j i) indexes_match_refl t.indices

  pub dropped_indexes_self : dropped_indexes t t ≡ []
  unfolding dropped_indexes
  dropped_indexes_self = none_missing_by_any indexes_match indexes_match_refl t.indices

  pub created_foreign_keys_self : created_foreign_keys t t ≡ []
  unfolding created_foreign_keys
  created_foreign_keys_self =
      none_missing (λ i j. foreign_keys_match j i) foreign_keys_match_refl t.foreign_keys

  pub dropped_foreign_keys_self : dropped_foreign_keys t t ≡ []
  unfolding dropped_foreign_keys
  dropped_foreign_keys_self = none_missing foreign_keys_match foreign_keys_match_refl t.foreign_keys

  pub added_columns_self : added_columns t t ≡ []
  unfolding added_columns columns_match
  added_columns_self = none_missing (λ i j. j.name == i.name) (λ c. eq_refl c.name) t.columns

  pub dropped_columns_self : dropped_columns t t ≡ []
  unfolding dropped_columns columns_match
  dropped_columns_self = none_missing (λ i j. i.name == j.name) (λ c. eq_refl c.name) t.columns

  pub index_pairs_self : NoTwins t.indices → index_pairs t t ≡ []
  unfolding index_pairs
  index_pairs_self alone = filter_map-nil _ t.indices (
      All-map t.indices
        (λ i none_found. ap (Option.map (λ j. (i, j))) (find-none (twins i) t.indices none_found))
        alone)

  module _ (value_eq : Value → Value → Bool) (value_eq_refl : (v : Value) → value_eq v v ≡ true)
      (options : DiffingOptions) (u : Unique (λ (c : Column Value). c.name) t.columns) where
    pub alter_columns_self : alter_columns value_eq options t t ≡ []
    unfolding alter_columns column_pairs columns_match alter_pair
    alter_columns_self =
        filter_map-paired (λ a b. a.name == b.name) t.columns (alter_pair value_eq options t t)
          t.columns (finds_itself (λ c. c.name) t.columns u)
          (All-map t.columns
            (λ c _.
              rw
                (
                  differs_self value_eq value_eq_refl options c,
                  foreign_key_changed_self (foreign_key_for_column t c.name),
                )
                refl)
            (All-Has t.columns))

    pub alter_table_self : alter_table value_eq options t t ≡ none
    unfolding alter_table table_changes drop_foreign_keys drop_columns add_columns no_entries
        filter_map
    alter_table_self =
        rw (dropped_foreign_keys_self, dropped_columns_self, added_columns_self, alter_columns_self)
          refl

pub alter_enum_self : (e : Enum) → alter_enum e e ≡ none
unfolding alter_enum is_empty no_entries created_values dropped_values
alter_enum_self e =
    rw
      (
        none_missing_by_any (λ a b. b == a) (λ v. eq_refl v) e.values,
        none_missing_by_any (λ a b. a == b) (λ v. eq_refl v) e.values,
      )
      refl
