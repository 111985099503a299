-- ===== src/Sql/Expand.antt =====
-- The changes of a column that a database can make in place: migration-engine/connectors/
-- sql-migration-connector/src/sql_migration/expanded_alter_column.rs. `panic` is the `unreachable!`
-- of a renaming.
use mathlib.Core.Option
use prisma_engines.Prelude.{Option, none, some, List, [], ◌∷◌, Outcome, ok, panic, ◌>>=◌, Bool}
use prisma_engines.Sql.Schema.{ColumnArity, ColumnTypeFamily, ColumnType, Column, DefaultValue}
use prisma_engines.Sql.Differ.Column.{DiffingOptions, ColumnChange, all_changes}
use prisma_engines.Sql.Differ.Diff.{SqlFamily}

pub data PostgresAlterColumn (Value : Type 0) : Type 0 where
  set_default : DefaultValue Value → PostgresAlterColumn Value
  drop_default : PostgresAlterColumn Value
  drop_not_null : PostgresAlterColumn Value
  set_type : ColumnType → PostgresAlterColumn Value

pub data MysqlAlterColumn (Value : Type 0) : Type 0 where
  set_default : DefaultValue Value → MysqlAlterColumn Value
  drop_default : MysqlAlterColumn Value

pub data SqliteAlterColumn : Type 0 where

pub data ExpandedAlterColumn (Value : Type 0) : Type 0 where
  postgres : List (PostgresAlterColumn Value) → ExpandedAlterColumn Value
  mysql : List (MysqlAlterColumn Value) → ExpandedAlterColumn Value
  sqlite : List SqliteAlterColumn → ExpandedAlterColumn Value

-- A function that may panic, and returns no error.
abbrev pub Expanded : Type 0 → Type 0
Expanded A = Outcome (Unit {0}) (Option A)

module _ {Value : Type 0} where
  -- One round of the loop over the changes: `none` is `return None`.
  unfoldable pub mysql_default : Option (DefaultValue Value) → MysqlAlterColumn Value
  mysql_default (some next_default) = MysqlAlterColumn.set_default next_default
  mysql_default none = MysqlAlterColumn.drop_default

  unfoldable pub postgres_default : Option (DefaultValue Value) → PostgresAlterColumn Value
  postgres_default (some next_default) = PostgresAlterColumn.set_default next_default
  postgres_default none = PostgresAlterColumn.drop_default

  unfoldable pub postgres_arity : ColumnArity → ColumnArity → Option (PostgresAlterColumn Value)
  postgres_arity ColumnArity.required ColumnArity.nullable = some PostgresAlterColumn.drop_not_null
  postgres_arity _ _ = none

  unfoldable pub postgres_type :
      ColumnType → ColumnTypeFamily → ColumnTypeFamily → Option (PostgresAlterColumn Value)
  postgres_type next_type ColumnTypeFamily.int ColumnTypeFamily.string =
      some (PostgresAlterColumn.set_type next_type)
  postgres_type next_type _ _ = none

  unfoldable pub mysql_change : Column Value → ColumnChange → Option (MysqlAlterColumn Value)
  mysql_change next ColumnChange.default = some (mysql_default next.default)
  mysql_change next _ = none

  unfoldable pub postgres_change :
      Column Value → Column Value → ColumnChange → Expanded (PostgresAlterColumn Value)
  postgres_change previous next ColumnChange.default = ok (some (postgres_default next.default))
  postgres_change previous next ColumnChange.arity =
      ok (postgres_arity previous.tpe.arity next.tpe.arity)
  postgres_change previous next ColumnChange.tpe =
      ok (postgres_type next.tpe previous.tpe.family next.tpe.family)
  postgres_change previous next ColumnChange.renaming = panic

  unfoldable pub mysql_changes :
      Column Value → List ColumnChange → Option (List (MysqlAlterColumn Value))
  mysql_changes next [] = some []
  mysql_changes next (change ∷ rest) = elim (mysql_change next change) [
    | none ↦ none
    | some first ↦ Option.map (λ more. first ∷ more) (mysql_changes next rest)
  ]

  unfoldable pub postgres_changes :
      Column Value → Column Value → List ColumnChange → Expanded (List (PostgresAlterColumn Value))
  postgres_changes previous next [] = ok (some [])
  postgres_changes previous next (change ∷ rest) =
      postgres_change previous next change >>= λ expanded. elim expanded [
        | none ↦ ok none
        | some first ↦ postgres_changes previous next rest >>= λ more.
            ok (Option.map (λ others. first ∷ others) more)
      ]

module _ {Value : Type 0} (value_eq : Value → Value → Bool) (options : DiffingOptions)
    (previous next : Column Value) where
  unfoldable pub expand_sqlite_alter_column : Option (List SqliteAlterColumn)
  expand_sqlite_alter_column = none

  unfoldable pub expand_mysql_alter_column : Option (List (MysqlAlterColumn Value))
  expand_mysql_alter_column = mysql_changes next (all_changes value_eq options previous next)

  unfoldable pub expand_postgres_alter_column : Expanded (List (PostgresAlterColumn Value))
  expand_postgres_alter_column =
      postgres_changes previous next (all_changes value_eq options previous next)

  unfoldable pub expand_alter_column : SqlFamily → Expanded (ExpandedAlterColumn Value)
  expand_alter_column SqlFamily.sqlite =
      ok (Option.map ExpandedAlterColumn.sqlite expand_sqlite_alter_column)
  expand_alter_column SqlFamily.mysql =
      ok (Option.map ExpandedAlterColumn.mysql expand_mysql_alter_column)
  expand_alter_column SqlFamily.postgres = expand_postgres_alter_column >>= λ changes.
      ok (Option.map ExpandedAlterColumn.postgres changes)
