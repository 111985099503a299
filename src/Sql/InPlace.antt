-- ===== src/Sql/InPlace.antt =====
-- What the changes that a database makes to a column in place are to lead to, for
-- migration-engine/connectors/sql-migration-connector/src/sql_migration/expanded_alter_column.rs.
use prisma_engines.Prelude.{
  ◌≡◌, not, ◌||◌, ◌&&◌, Bool, true, false, Option, none, some, List, [], ◌∷◌, length,
}
use prisma_engines.Sql.Schema.{ColumnTypeFamily, ColumnArity, family_eq, arity_eq, Column}
use prisma_engines.Sql.Differ.Column.{DiffingOptions, type_changed, all_changes}
use prisma_engines.Sql.Expand.{PostgresAlterColumn, MysqlAlterColumn}

-- An integer becomes a text, a required value an optional one.
abbrev pub is_cast : ColumnTypeFamily → ColumnTypeFamily → Bool
is_cast previous next =
    family_eq previous ColumnTypeFamily.int && family_eq next ColumnTypeFamily.string

abbrev pub is_relaxed : ColumnArity → ColumnArity → Bool
is_relaxed previous next =
    arity_eq previous ColumnArity.required && arity_eq next ColumnArity.nullable

module _ {Value : Type 0} where
  -- What a database makes of a column: a change of the type keeps whether it may be null.
  abbrev pub run_postgres : PostgresAlterColumn Value → Column Value → Column Value
  run_postgres (PostgresAlterColumn.set_default default) column = record column {
    default = some default;
  }
  run_postgres PostgresAlterColumn.drop_default column = record column { default = none }
  run_postgres PostgresAlterColumn.drop_not_null column = record column {
    tpe = record column.tpe { arity = ColumnArity.nullable };
  }
  run_postgres (PostgresAlterColumn.set_type tpe) column = record column {
    tpe = record column.tpe { family = tpe.family };
  }

  abbrev pub run_mysql : MysqlAlterColumn Value → Column Value → Column Value
  run_mysql (MysqlAlterColumn.set_default default) column = record column { default = some default }
  run_mysql MysqlAlterColumn.drop_default column = record column { default = none }

  abbrev pub postgres_in_place : DiffingOptions → Column Value → Column Value → Bool
  postgres_in_place options previous next =
      (not (type_changed options previous.tpe.family next.tpe.family)
        || is_cast previous.tpe.family next.tpe.family)
      && (arity_eq previous.tpe.arity next.tpe.arity
          || is_relaxed previous.tpe.arity next.tpe.arity)

  abbrev pub mysql_in_place : DiffingOptions → Column Value → Column Value → Bool
  mysql_in_place options previous next =
      not (type_changed options previous.tpe.family next.tpe.family)
      && arity_eq previous.tpe.arity next.tpe.arity

  module _ {Change : Type 0} (run : Change → Column Value → Column Value) where
    abbrev pub run_all : List Change → Column Value → Column Value
    run_all [] column = column
    run_all (change ∷ changes) column = run_all changes (run change column)

    -- Changes are made if the columns differ in what can be changed in place: one for each
    -- difference, and once they are made, the column differs from the next one in nothing.
    pub data Settles (value_eq : Value → Value → Bool) (options : DiffingOptions)
        (previous next : Column Value) (in_place : Bool) : Option (List Change) → Type 0 where
      made :
          (changes : List Change)
          → in_place ≡ true
          → length changes ≡ length (all_changes value_eq options previous next)
          → all_changes value_eq options (run_all changes previous) next ≡ []
          → Settles value_eq options previous next in_place (some changes)
      refused : in_place ≡ false → Settles value_eq options previous next in_place none
