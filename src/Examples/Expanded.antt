-- ===== src/Examples/Expanded.antt =====
-- The theorems on the changes of columns in place, at a counter.
use prisma_engines.Prelude.{
  String, ◌==◌, ◌≡◌, refl, Bool, false, Option, none, some, List, [], ◌∷◌, eq_refl, ok,
}
use prisma_engines.Sql.Schema.{
  ColumnTypeFamily, ColumnArity, DefaultValue, Column, family_eq, arity_eq,
}
use prisma_engines.Sql.Differ.Column.{
  DiffingOptions, type_changed, defaults_match, default_eq, all_changes, present, when_changed,
}
use prisma_engines.Sql.Expand.{
  PostgresAlterColumn, postgres_type, postgres_arity, postgres_default, postgres_change,
  postgres_changes, expand_postgres_alter_column, expand_mysql_alter_column,
}
use prisma_engines.Sql.InPlace.{run_postgres, run_mysql, postgres_in_place, mysql_in_place, Settles}
use prisma_engines.Sql.Expansions.{
  expand_postgres_alter_column-Settles, expand_mysql_alter_column-Settles,
}

-- Defaults are texts.
abbrev text_eq : String → String → Bool
text_eq a b = a == b

abbrev options : DiffingOptions
options = record { is_mariadb = false; is_ignored = λ _. false }

abbrev count : Column String
count = record {
  name = "count";
  tpe = record {
    data_type = "";
    full_data_type = "";
    character_maximum_length = none;
    family = ColumnTypeFamily.int;
    arity = ColumnArity.required;
  };
  default = none;
  auto_increment = false;
}

abbrev count_with_default : Column String
count_with_default = record count { default = some (DefaultValue.value "0") }

abbrev count_as_text : Column String
count_as_text = record count {
  tpe = record count.tpe { family = ColumnTypeFamily.string; arity = ColumnArity.nullable };
  default = some (DefaultValue.value "none");
}

expand_postgres_alter_column-Settles_example :
    (result : Option (List (PostgresAlterColumn String))) × (expand_postgres_alter_column text_eq
        options count count_as_text
      ≡ ok result)
    × Settles run_postgres text_eq options count count_as_text
        (postgres_in_place options count count_as_text)
        result
expand_postgres_alter_column-Settles_example =
    expand_postgres_alter_column-Settles text_eq eq_refl options count count_as_text refl

expand_mysql_alter_column-Settles_example :
    Settles run_mysql text_eq options count count_with_default
      (mysql_in_place options count count_with_default)
      (expand_mysql_alter_column text_eq options count count_with_default)
expand_mysql_alter_column-Settles_example =
    expand_mysql_alter_column-Settles text_eq eq_refl options count count_with_default refl

-- Postgres changes the type, the arity and the default.
expand_postgres_test :
    expand_postgres_alter_column text_eq options count count_as_text
    ≡ ok (
        some (
          PostgresAlterColumn.set_type count_as_text.tpe
          ∷ PostgresAlterColumn.drop_not_null
          ∷ PostgresAlterColumn.set_default (DefaultValue.value "none")
          ∷ []))
unfolding expand_postgres_alter_column postgres_changes postgres_change postgres_type postgres_arity
    postgres_default all_changes present when_changed type_changed defaults_match default_eq
    family_eq arity_eq
expand_postgres_test = refl
