-- ===== src/Sql/Steps.antt =====
-- The steps of a database migration:
-- migration-engine/connectors/sql-migration-connector/src/sql_migration.rs.
use prisma_engines.Prelude.{String, Bool, true, false, ◌&&◌, List, [], ◌∷◌}
use prisma_engines.Sql.Schema.{Column, Index, ForeignKey, Table}

pub record DropTable : Type 0 where
  pub name : String

pub record DropTables : Type 0 where
  pub names : List String

pub record DropColumn : Type 0 where
  pub name : String

pub record AddForeignKey : Type 0 where
  pub table : String
  pub foreign_key : ForeignKey

pub record DropForeignKey : Type 0 where
  pub constraint_name : String

pub record CreateIndex : Type 0 where
  pub table : String
  pub index : Index

pub record DropIndex : Type 0 where
  pub table : String
  pub name : String

pub record AlterIndex : Type 0 where
  pub table : String
  pub index_name : String
  pub index_new_name : String

pub record CreateEnum : Type 0 where
  pub name : String
  pub variants : List String

pub record DropEnum : Type 0 where
  pub name : String

pub record AlterEnum : Type 0 where
  pub name : String
  pub created_variants : List String
  pub dropped_variants : List String

pub record CreateTable (Value : Type 0) : Type 0 where
  pub table : Table Value

pub record AddColumn (Value : Type 0) : Type 0 where
  pub column : Column Value

pub record AlterColumn (Value : Type 0) : Type 0 where
  pub name : String
  pub column : Column Value

pub data TableChange (Value : Type 0) : Type 0 where
  add_column : AddColumn Value → TableChange Value
  alter_column : AlterColumn Value → TableChange Value
  drop_column : DropColumn → TableChange Value
  drop_foreign_key : DropForeignKey → TableChange Value

pub record AlterTable (Value : Type 0) : Type 0 where
  pub table : Table Value
  pub changes : List (TableChange Value)

pub data SqlMigrationStep (Value : Type 0) : Type 0 where
  add_foreign_key : AddForeignKey → SqlMigrationStep Value
  create_table : CreateTable Value → SqlMigrationStep Value
  alter_table : AlterTable Value → SqlMigrationStep Value
  drop_table : DropTable → SqlMigrationStep Value
  drop_tables : DropTables → SqlMigrationStep Value
  rename_table : String → String → SqlMigrationStep Value
  raw_sql : String → SqlMigrationStep Value
  create_index : CreateIndex → SqlMigrationStep Value
  drop_index : DropIndex → SqlMigrationStep Value
  alter_index : AlterIndex → SqlMigrationStep Value
  create_enum : CreateEnum → SqlMigrationStep Value
  drop_enum : DropEnum → SqlMigrationStep Value
  alter_enum : AlterEnum → SqlMigrationStep Value

-- `is_empty` of a vector.
unfoldable pub no_entries : {A : Type 0} → List A → Bool
no_entries [] = true
no_entries (x ∷ xs) = false

unfoldable pub is_empty : AlterEnum → Bool
is_empty step = no_entries step.created_variants && no_entries step.dropped_variants
