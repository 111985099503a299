-- ===== src/Sql/Expansions.antt =====
-- The changes of a column that a database can make in place, and what they lead to:
-- migration-engine/connectors/sql-migration-connector/src/sql_migration/expanded_alter_column.rs.
use prisma_engines.Prelude.{
  ◌≡◌, refl, ap, ◌∙◌, sym, subst, not, ◌||◌, ◌&&◌, Bool, true, false, Option, none, some, List, [],
  ◌∷◌, ◌++◌, if◌then◌else◌, length, ok, arith,
}
use prisma_engines.Sql.Schema.{
  ColumnTypeFamily, ColumnArity, family_eq, arity_eq, Column, DefaultValue,
}
use prisma_engines.Sql.Differ.Column.{
  DiffingOptions, type_changed, present, when_changed, defaults_match, all_changes,
}
use prisma_engines.Sql.Expand.{
  PostgresAlterColumn, MysqlAlterColumn, postgres_default, mysql_default, postgres_arity,
  postgres_type, postgres_change, postgres_changes, mysql_change, mysql_changes,
  expand_mysql_alter_column, expand_postgres_alter_column,
}
use prisma_engines.Sql.Settled.{by_tests, all_changes_lem, changed, changed-settled}
use prisma_engines.Sql.InPlace.{
  run_postgres, run_mysql, is_cast, is_relaxed, postgres_in_place, mysql_in_place, run_all, Settles,
}

postgres_type_lem :
    {Value : Type 0} (next : Column Value) (f g : ColumnTypeFamily)
    → postgres_type {Value = Value} next.tpe f g
      ≡ (if is_cast f g then some (PostgresAlterColumn.set_type next.tpe) else none)
unfolding postgres_type family_eq
postgres_type_lem next ColumnTypeFamily.int ColumnTypeFamily.string = refl
postgres_type_lem next ColumnTypeFamily.int _ = refl
postgres_type_lem next _ g = refl

postgres_arity_lem :
    {Value : Type 0} (a b : ColumnArity)
    → postgres_arity {Value = Value} a b
      ≡ (if is_relaxed a b then some PostgresAlterColumn.drop_not_null else none)
unfolding postgres_arity arity_eq
postgres_arity_lem ColumnArity.required ColumnArity.nullable = refl
postgres_arity_lem ColumnArity.required _ = refl
postgres_arity_lem _ b = refl

module _ {Value : Type 0} (value_eq : Value → Value → Bool)
    (value_eq_refl : (v : Value) → value_eq v v ≡ true) (options : DiffingOptions)
    (previous next : Column Value) (same : previous.name ≡ next.name) where
  abbrev postgres_made : Bool → Bool → Bool → List (PostgresAlterColumn Value)
  postgres_made t e m =
      (if t then PostgresAlterColumn.set_type next.tpe ∷ [] else [])
      ++ ((if e then [] else PostgresAlterColumn.drop_not_null ∷ [])
          ++ (if m then [] else postgres_default next.default ∷ []))

  abbrev mysql_made : Bool → List (MysqlAlterColumn Value)
  mysql_made m = if m then [] else mysql_default next.default ∷ []

  run_postgres-default :
      (default : Option (DefaultValue Value)) (column : Column Value)
      → run_postgres (postgres_default default) column ≡ record column { default = default }
  unfolding postgres_default
  run_postgres-default none column = refl
  run_postgres-default (some default) column = refl

  run_mysql-default :
      (default : Option (DefaultValue Value)) (column : Column Value)
      → run_mysql (mysql_default default) column ≡ record column { default = default }
  unfolding mysql_default
  run_mysql-default none column = refl
  run_mysql-default (some default) column = refl

  run_all-postgres_made :
      (t e m : Bool)
      → run_all run_postgres (postgres_made t e m) previous ≡ changed previous next t e m
  run_all-postgres_made true true true = refl
  run_all-postgres_made true false true = refl
  run_all-postgres_made false true true = refl
  run_all-postgres_made false false true = refl
  run_all-postgres_made true true false = run_postgres-default next.default _
  run_all-postgres_made true false false = run_postgres-default next.default _
  run_all-postgres_made false true false = run_postgres-default next.default _
  run_all-postgres_made false false false = run_postgres-default next.default _

  run_all-mysql_made :
      (m : Bool) → run_all run_mysql (mysql_made m) previous ≡ changed previous next false true m
  run_all-mysql_made true = refl
  run_all-mysql_made false = run_mysql-default next.default _

  length-postgres_made : (t e m : Bool) → length (postgres_made t e m) ≡ length (by_tests t e m)
  unfolding by_tests present when_changed
  length-postgres_made true true true = refl
  length-postgres_made true false true = refl
  length-postgres_made false true true = refl
  length-postgres_made false false true = refl
  length-postgres_made true true false = refl
  length-postgres_made true false false = refl
  length-postgres_made false true false = refl
  length-postgres_made false false false = refl

  length-mysql_made :
      (t e m : Bool) → (not t && e) ≡ true → length (mysql_made m) ≡ length (by_tests t e m)
  unfolding by_tests present when_changed
  length-mysql_made false true true in_place = refl
  length-mysql_made false true false in_place = refl
  length-mysql_made true e m in_place = ground arith
  length-mysql_made false false m in_place = ground arith

  postgres_lem :
      (t e m c w : Bool)
      → postgres_type {Value = Value} next.tpe previous.tpe.family next.tpe.family
        ≡ (if c then some (PostgresAlterColumn.set_type next.tpe) else none)
      → postgres_arity {Value = Value} previous.tpe.arity next.tpe.arity
        ≡ (if w then some PostgresAlterColumn.drop_not_null else none)
      → postgres_changes previous next (by_tests t e m)
        ≡ ok (if (not t || c) && (e || w) then some (postgres_made t e m) else none)
  unfolding by_tests present when_changed postgres_changes postgres_change
  postgres_lem true e m false w cast relaxed = rw cast refl
  postgres_lem true true true true w cast relaxed = rw cast refl
  postgres_lem true true false true w cast relaxed = rw cast refl
  postgres_lem true false m true false cast relaxed = rw (cast, relaxed) refl
  postgres_lem true false true true true cast relaxed = rw (cast, relaxed) refl
  postgres_lem true false false true true cast relaxed = rw (cast, relaxed) refl
  postgres_lem false true true c w cast relaxed = refl
  postgres_lem false true false c w cast relaxed = refl
  postgres_lem false false m c false cast relaxed = rw relaxed refl
  postgres_lem false false true c true cast relaxed = rw relaxed refl
  postgres_lem false false false c true cast relaxed = rw relaxed refl

  mysql_lem :
      (t e m : Bool)
      → mysql_changes next (by_tests t e m) ≡ (if not t && e then some (mysql_made m) else none)
  unfolding by_tests present when_changed mysql_changes mysql_change
  mysql_lem true e m = refl
  mysql_lem false false m = refl
  mysql_lem false true true = refl
  mysql_lem false true false = refl

  to_settle :
      {Change : Type 0} (run : Change → Column Value → Column Value)
      → (changes : List Change) → (in_place : Bool)
      → (in_place ≡ true → length changes ≡ length (all_changes value_eq options previous next))
      → (in_place ≡ true → all_changes value_eq options (run_all run changes previous) next ≡ [])
      → Settles run value_eq options previous next in_place
          (if in_place then some changes else none)
  to_settle run changes true one_each settled =
      Settles.made changes refl (one_each refl) (settled refl)
  to_settle run changes false one_each settled = Settles.refused refl

  abbrev t : Bool
  t = type_changed options previous.tpe.family next.tpe.family

  abbrev e : Bool
  e = arity_eq previous.tpe.arity next.tpe.arity

  abbrev m : Bool
  m = defaults_match value_eq previous next

  -- For two columns of the same name, and an equality of values that each value has with itself,
  -- Postgres' expansion does not panic. It gives changes just if an integer becomes a text or the
  -- type does not change, and a required value becomes an optional one or the arity does not
  -- change. They are one for each difference of the columns, and when a database has run them, the
  -- column differs from the next one in nothing.
  pub expand_postgres_alter_column-Settles :
      (result : Option (List (PostgresAlterColumn Value))) × (expand_postgres_alter_column value_eq
          options previous next
        ≡ ok result)
      × Settles run_postgres value_eq options previous next
          (postgres_in_place options previous next)
          result
  unfolding expand_postgres_alter_column
  expand_postgres_alter_column-Settles = (
    _,
    ap (postgres_changes previous next) (all_changes_lem value_eq options next previous same)
        ∙ postgres_lem t e m _ _ (postgres_type_lem next previous.tpe.family next.tpe.family)
            (postgres_arity_lem previous.tpe.arity next.tpe.arity),
    to_settle run_postgres (postgres_made t e m) (postgres_in_place options previous next)
        (λ _.
          length-postgres_made t e m
          ∙ sym (ap length (all_changes_lem value_eq options next previous same)))
        (λ in_place.
          ap (λ c. all_changes value_eq options c next) (run_all-postgres_made t e m)
          ∙ changed-settled value_eq value_eq_refl options previous next same t e m refl refl refl
              (ground arith)),
  )

  -- For two columns of the same name, and an equality of values that each value has with itself,
  -- MySQL's expansion gives changes just if neither the type nor the arity changes. They are one
  -- for each difference of the columns, and when a database has run them, the column differs from
  -- the next one in nothing.
  pub expand_mysql_alter_column-Settles :
      Settles run_mysql value_eq options previous next
        (mysql_in_place options previous next)
        (expand_mysql_alter_column value_eq options previous next)
  unfolding expand_mysql_alter_column
  expand_mysql_alter_column-Settles =
      subst
        (λ r.
          Settles run_mysql value_eq options previous next (mysql_in_place options previous next) r)
        (sym (
          ap (mysql_changes next) (all_changes_lem value_eq options next previous same)
          ∙ mysql_lem t e m))
        (to_settle run_mysql (mysql_made m) (mysql_in_place options previous next)
          (λ in_place.
            length-mysql_made t e m in_place
            ∙ sym (ap length (all_changes_lem value_eq options next previous same)))
          (λ in_place.
            ap (λ c. all_changes value_eq options c next) (run_all-mysql_made m)
            ∙ changed-settled value_eq value_eq_refl options previous next same false true m
                (ground arith) (ground arith) refl refl))
