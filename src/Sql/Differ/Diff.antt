-- ===== src/Sql/Differ/Diff.antt =====
-- `SqlSchemaDiffer` and `SqlSchemaDiff`:
-- migration-engine/connectors/sql-migration-connector/src/sql_schema_differ.rs.
use mathlib.Core.List.{filter_map, flat_map}
use mathlib.Core.Option
use prisma_engines.Prelude.{
  Option, String, ◌==◌, not, ◌&&◌, ◌||◌, Bool, true, false, none, List, ◌++◌, map, find, any,
  filter, ok, err, panic, Outcome,
}
use prisma_engines.Sql.Schema.{Table, SqlSchema, has_table, table}
use prisma_engines.Sql.Steps.{
  DropTable, AddForeignKey, CreateIndex, DropIndex, AlterIndex, CreateEnum, DropEnum, AlterEnum,
  CreateTable, AlterTable, SqlMigrationStep,
}
use prisma_engines.Sql.Differ.Changes.{
  create_table_indexes, add_table_foreign_keys, rename_table_indexes, enum_pairs, alter_enum,
  drop_own_foreign_keys, alter_table,
}
use prisma_engines.Sql.Differ.Column.{DiffingOptions}
use prisma_engines.Sql.Differ.Table.{
  enums_match, tables_match, index_covers_fk, created_foreign_keys, created_indexes,
  dropped_indexes, index_pairs,
}

-- `SqlFamily` of the quaint crate, whose constructors the connector matches on.
pub data SqlFamily : Type 0 where
  sqlite : SqlFamily
  mysql : SqlFamily
  postgres : SqlFamily

unfoldable pub is_mysql : SqlFamily → Bool
is_mysql SqlFamily.mysql = true
is_mysql _ = false

-- `MIGRATION_TABLE_NAME` of sql_migration_persistence.rs.
abbrev pub migration_table_name : String
migration_table_name = "_Migration"

pub record SqlSchemaDiff (Value : Type 0) : Type 0 where
  pub add_foreign_keys : List AddForeignKey
  pub drop_tables : List DropTable
  pub create_tables : List (CreateTable Value)
  pub alter_tables : List (AlterTable Value)
  pub create_indexes : List CreateIndex
  pub drop_indexes : List DropIndex
  pub alter_indexes : List AlterIndex
  pub create_enums : List CreateEnum
  pub drop_enums : List DropEnum
  pub alter_enums : List AlterEnum

module _ {Value : Type 0} where
  unfoldable pub into_steps : SqlSchemaDiff Value → List (SqlMigrationStep Value)
  into_steps diff =
      map SqlMigrationStep.create_enum diff.create_enums
      ++ (map SqlMigrationStep.alter_enum diff.alter_enums
          ++ (map SqlMigrationStep.drop_index diff.drop_indexes
              ++ (map SqlMigrationStep.create_table diff.create_tables
                  ++ (map SqlMigrationStep.alter_table diff.alter_tables
                      ++ (map SqlMigrationStep.create_index diff.create_indexes
                          ++ (map SqlMigrationStep.add_foreign_key diff.add_foreign_keys
                              ++ (map SqlMigrationStep.drop_table diff.drop_tables
                                  ++ (map SqlMigrationStep.drop_enum diff.drop_enums
                                      ++ map SqlMigrationStep.alter_index diff.alter_indexes))))))))

  -- The table of the next schema of the same name, with the previous one.
  unfoldable pub table_pairs : SqlSchema Value → SqlSchema Value → List (Table Value × Table Value)
  table_pairs previous next =
      filter_map
        (λ previous_table.
          Option.map (λ next_table. (previous_table, next_table))
            (find (tables_match previous_table) next.tables))
        previous.tables

-- Tables that the differ leaves alone when it creates and drops.
module _ (options : DiffingOptions) where
  unfoldable pub table_is_ignored : String → Bool
  table_is_ignored name = (name == migration_table_name) || options.is_ignored name

  -- `previous_tables` and `next_tables`.
  unfoldable pub kept_tables : {Value : Type 0} → SqlSchema Value → List (Table Value)
  kept_tables schema = filter (λ t. not (table_is_ignored t.name)) schema.tables

  module _ {Value : Type 0} (previous next : SqlSchema Value) where
    unfoldable pub created_tables : List (Table Value)
    created_tables = filter (λ t. not (has_table previous t.name)) (kept_tables next)

    unfoldable pub dropped_tables : List (Table Value)
    dropped_tables =
        filter (λ t. not (any (tables_match t) (kept_tables next))) (kept_tables previous)

    unfoldable pub create_tables : List (CreateTable Value)
    create_tables = map (λ t. record { table = t }) created_tables

    -- `drop_tables`, with the alterations that drop the foreign keys first.
    unfoldable pub drop_tables : List DropTable × List (AlterTable Value)
    drop_tables = (
      map (λ t. record { name = t.name }) dropped_tables,
      flat_map drop_own_foreign_keys dropped_tables,
    )

    unfoldable pub add_foreign_keys : List AddForeignKey
    add_foreign_keys =
        flat_map (λ t. add_table_foreign_keys t.name t.foreign_keys) created_tables
        ++ flat_map
            (λ pair. add_table_foreign_keys pair.1.name (created_foreign_keys pair.0 pair.1))
            (table_pairs previous next)

    unfoldable pub create_indexes : List CreateIndex
    create_indexes =
        flat_map (λ t. create_table_indexes t.name t.indices) created_tables
        ++ flat_map (λ pair. create_table_indexes pair.1.name (created_indexes pair.0 pair.1))
            (table_pairs previous next)

module _ {Value : Type 0} (previous next : SqlSchema Value) where
  unfoldable pub drop_indexes : SqlFamily → List DropIndex
  drop_indexes sql_family =
      flat_map
        (λ pair.
          map (λ index. record { table = pair.0.name; name = index.name })
            (filter (λ index. not (is_mysql sql_family && index_covers_fk pair.0 index))
              (dropped_indexes pair.0 pair.1)))
        (table_pairs previous next)

  unfoldable pub alter_indexes : List AlterIndex
  alter_indexes =
      flat_map (λ pair. rename_table_indexes pair.1.name (index_pairs pair.0 pair.1))
        (table_pairs previous next)

  unfoldable pub create_enums : List CreateEnum
  create_enums =
      map (λ e. record { name = e.name; variants = e.values })
        (filter (λ e. not (any (λ p. enums_match p e) previous.enums)) next.enums)

  unfoldable pub drop_enums : List DropEnum
  drop_enums =
      map (λ e. record { name = e.name })
        (filter (λ e. not (any (enums_match e) next.enums)) previous.enums)

  unfoldable pub alter_enums : List AlterEnum
  alter_enums = filter_map (λ pair. alter_enum pair.0 pair.1) (enum_pairs previous.enums next.enums)

-- `if let Ok(…)`.
abbrev pub if_found : {E A B : Type 0} → (A → Option B) → Outcome E A → Option B
if_found next (ok a) = next a
if_found next (err _) = none
if_found next panic = none

module _ {Value : Type 0} (value_eq : Value → Value → Bool) (options : DiffingOptions) where
  -- `table` answers an error where the next schema has no such table.
  unfoldable pub alter_tables : SqlSchema Value → SqlSchema Value → List (AlterTable Value)
  alter_tables previous next =
      filter_map
        (λ previous_table.
          if_found (alter_table value_eq options previous_table) (table next previous_table.name))
        previous.tables

  unfoldable pub diff : SqlFamily → SqlSchema Value → SqlSchema Value → SqlSchemaDiff Value
  diff sql_family previous next = record {
    add_foreign_keys = add_foreign_keys options previous next;
    drop_tables = (drop_tables options previous next).0;
    create_tables = create_tables options previous next;
    alter_tables = alter_tables previous next ++ (drop_tables options previous next).1;
    create_indexes = create_indexes options previous next;
    drop_indexes = drop_indexes previous next sql_family;
    alter_indexes = alter_indexes previous next;
    create_enums = create_enums previous next;
    drop_enums = drop_enums previous next;
    alter_enums = alter_enums previous next;
  }
