-- ===== src/Sql/Fixable.antt =====
-- The correction of the steps for Postgres and MySQL does not panic: migration-engine/connectors/
-- sql-migration-connector/src/sql_database_migration_inferrer.rs.
use mathlib.Core.List.{filter_map, flat_map}
use prisma_engines.Prelude.{
  ◌≡◌, refl, ap, ◌∙◌, subst, fun_ext, eq-sym, ◌==◌, ◌||◌, Bool, false, some, List, [], ◌∷◌, ◌++◌,
  map, find, Has, Unique, All, All-map, All-append, All_of, All-Has, find_unique, Option-cases, inl,
  inr, ok,
}
use prisma_engines.Sql.Schema.{Column, Table, SqlSchema, table, foreign_key_for_column}
use prisma_engines.Sql.Steps.{TableChange, AlterTable, SqlMigrationStep, no_entries}
use prisma_engines.Sql.Differ.Column.{DiffingOptions, differs_in_something}
use prisma_engines.Sql.Differ.Table.{column_pairs, foreign_key_changed}
use prisma_engines.Sql.Differ.Changes.{
  drop_columns, add_columns, drop_foreign_keys, drop_own_foreign_keys, alter_pair, alter_columns,
  table_changes, alter_table,
}
use prisma_engines.Sql.Differ.Diff.{
  SqlFamily, SqlSchemaDiff, into_steps, diff, alter_tables, drop_tables, dropped_tables,
}
use prisma_engines.Sql.Infer.{find_some, changes_id_column, changes_id_type}
use prisma_engines.Sql.Answers.{
  Answers, find_some-Answers, All-wrapped, All-filter_map, All-flat_map, of_if, of_unless,
  table_named, found_and, column_pairs-Has, altered-Answers,
}

All-mapped :
    {A B : Type 0} (P : B → Type 0) (f : A → B) (xs : List A)
    → All (λ a. P (f a)) xs
    → All P (map f xs)
All-mapped P f [] h = tt
All-mapped P f (x ∷ xs) h = (h.0, All-mapped P f xs h.1)

module _ {Value : Type 0} (from : SqlSchema Value)
    (u : Unique (λ (t : Table Value). t.name) from.tables) where
  -- The test of a step does not panic.
  abbrev Fixable : SqlMigrationStep Value → Type 0
  Fixable = Answers (changes_id_type from)

  found_by_name : (t : Table Value) → Has t from.tables → table from t.name ≡ ok t
  unfolding table
  found_by_name t m =
      let found : find (λ v. v.name == t.name) from.tables ≡ some t =
        ap (λ p. find p from.tables) (fun_ext (λ v. eq-sym v.name t.name))
        ∙ find_unique (λ v. v.name) from.tables t u m in
      rw (found, table) refl

  -- Steps that drop the foreign keys of a table that is dropped.
  drop_own-Fixable :
      (t : Table Value)
      → All (λ alter. Fixable (SqlMigrationStep.alter_table alter)) (drop_own_foreign_keys t)
  unfolding drop_own_foreign_keys changes_id_type find_some changes_id_column table
  drop_own-Fixable t =
      All-wrapped (λ alter. Fixable (SqlMigrationStep.alter_table alter)) _
        (filter_map (λ fk. fk.constraint_name) t.foreign_keys)
        (λ name. elim (Option-cases (find (λ v. v.name == t.name) from.tables)) [
          | inl e ↦ (false, rw (e, table) refl)
          | inr found ↦ (false, rw (found.1, table) refl)
        ])

  others :
      {A : Type 0} (wrap : A → SqlMigrationStep Value) (xs : List A)
      (rest : List (SqlMigrationStep Value))
      → ((a : A) → Fixable (wrap a))
      → All Fixable rest
      → All Fixable (map wrap xs ++ rest)
  others wrap xs rest h later =
      All-append Fixable (map wrap xs) rest (All-wrapped Fixable wrap xs h) later

  all-Fixable :
      (d : SqlSchemaDiff Value)
      → All (λ alter. Fixable (SqlMigrationStep.alter_table alter)) d.alter_tables
      → All Fixable (into_steps d)
  unfolding into_steps changes_id_type
  all-Fixable d alters =
      let after_drop_enum : List (SqlMigrationStep Value) =
        map SqlMigrationStep.alter_index d.alter_indexes in
      let after_drop_table : List (SqlMigrationStep Value) =
        map SqlMigrationStep.drop_enum d.drop_enums ++ after_drop_enum in
      let after_add_foreign_key : List (SqlMigrationStep Value) =
        map SqlMigrationStep.drop_table d.drop_tables ++ after_drop_table in
      let after_create_index : List (SqlMigrationStep Value) =
        map SqlMigrationStep.add_foreign_key d.add_foreign_keys ++ after_add_foreign_key in
      let after_alter_table : List (SqlMigrationStep Value) =
        map SqlMigrationStep.create_index d.create_indexes ++ after_create_index in
      let after_create_table : List (SqlMigrationStep Value) =
        map SqlMigrationStep.alter_table d.alter_tables ++ after_alter_table in
      let after_drop_index : List (SqlMigrationStep Value) =
        map SqlMigrationStep.create_table d.create_tables ++ after_create_table in
      let after_alter_enum : List (SqlMigrationStep Value) =
        map SqlMigrationStep.drop_index d.drop_indexes ++ after_drop_index in
      let after_create_enum : List (SqlMigrationStep Value) =
        map SqlMigrationStep.alter_enum d.alter_enums ++ after_alter_enum in
      (others SqlMigrationStep.create_enum d.create_enums after_create_enum (λ _. (false, refl))
        (others SqlMigrationStep.alter_enum d.alter_enums after_alter_enum (λ _. (false, refl))
          (others SqlMigrationStep.drop_index d.drop_indexes after_drop_index (λ _. (false, refl))
            (others SqlMigrationStep.create_table d.create_tables after_create_table
              (λ _. (false, refl))
              (All-append Fixable (map SqlMigrationStep.alter_table d.alter_tables)
                after_alter_table
                (All-mapped Fixable SqlMigrationStep.alter_table d.alter_tables alters)
                (others SqlMigrationStep.create_index d.create_indexes after_create_index
                  (λ _. (false, refl))
                  (others SqlMigrationStep.add_foreign_key d.add_foreign_keys after_add_foreign_key
                    (λ _. (false, refl))
                    (others SqlMigrationStep.drop_table d.drop_tables after_drop_table
                      (λ _. (false, refl))
                      (others SqlMigrationStep.drop_enum d.drop_enums after_drop_enum
                        (λ _. (false, refl))
                        (All-wrapped Fixable SqlMigrationStep.alter_index d.alter_indexes
                          (λ _. (false, refl))))))))))))

  module _ (value_eq : Value → Value → Bool) (options : DiffingOptions) where
    alter_pair-Answers :
        (t v : Table Value) (pair : Column Value × Column Value) (change : TableChange Value)
        → Has pair.0 t.columns
        → alter_pair value_eq options t v pair ≡ some change
        → Answers (changes_id_column t) change
    unfolding alter_pair
    alter_pair-Answers t v (c, d) change m e =
        subst (Answers (changes_id_column t))
          (of_if
            (differs_in_something value_eq options c d
              || foreign_key_changed (foreign_key_for_column t c.name)
                  (foreign_key_for_column v d.name))
            _ change e)
          (altered-Answers t c d m)

    changes-Answers :
        (t v : Table Value)
        → All (Answers (changes_id_column t)) (table_changes value_eq options t v)
    unfolding table_changes drop_foreign_keys drop_columns add_columns changes_id_column
        alter_columns
    changes-Answers t v =
        All-append _ (drop_foreign_keys t v) _
          (All-wrapped (Answers (changes_id_column t)) _ _ (λ _. (false, refl)))
          (All-append _ (drop_columns t v) _
            (All-wrapped (Answers (changes_id_column t)) _ _ (λ _. (false, refl)))
            (All-append _ (add_columns t v) _
              (All-wrapped (Answers (changes_id_column t)) _ _ (λ _. (false, refl)))
              (All-filter_map (Answers (changes_id_column t)) (alter_pair value_eq options t v)
                (column_pairs t v)
                (All-map (column_pairs t v)
                  (λ pair m change e. alter_pair-Answers t v pair change m e)
                  (column_pairs-Has t v)))))

    alter_table-Fixable :
        (t v : Table Value) (alter : AlterTable Value)
        → Has t from.tables
        → v.name ≡ t.name
        → alter_table value_eq options t v ≡ some alter
        → Fixable (SqlMigrationStep.alter_table alter)
    unfolding alter_table changes_id_type
    alter_table-Fixable t v alter m same e =
        let built : record { table = v; changes = table_changes value_eq options t v } ≡ alter =
          of_unless (no_entries (table_changes value_eq options t v)) _ alter e in
        subst (λ a. Fixable (SqlMigrationStep.alter_table a)) built
          (let at : table from v.name ≡ ok t = ap (table from) same ∙ found_by_name t m in
            let answer : (b : Bool) × (find_some (changes_id_column t)
                    (table_changes value_eq options t v)
                  ≡ ok b) =
              find_some-Answers (changes_id_column t) (table_changes value_eq options t v)
                (changes-Answers t v) in
            (answer.0, rw at answer.1))

    alter_tables-Fixable :
        (next : SqlSchema Value)
        → All
            (λ alter. Fixable (SqlMigrationStep.alter_table alter))
            (alter_tables value_eq options from next)
    unfolding alter_tables
    alter_tables-Fixable next =
        All-filter_map (λ alter. Fixable (SqlMigrationStep.alter_table alter)) _ from.tables
          (All-map from.tables
            (λ t m alter e.
              let found : (v : Table Value) × (table next t.name ≡ ok v)
                  × (alter_table value_eq options t v ≡ some alter) =
                found_and (alter_table value_eq options t) (table next t.name) alter e in
              alter_table-Fixable t found.0 alter m (table_named next t.name found.0 found.1)
                found.2)
            (All-Has from.tables))

    -- No test of a step of the difference panics.
    pub into_steps-Fixable :
        (family : SqlFamily) (next : SqlSchema Value)
        → All Fixable (into_steps (diff value_eq options family from next))
    unfolding diff drop_tables
    into_steps-Fixable family next = all-Fixable (diff value_eq options family from next) (
        All-append (λ alter. Fixable (SqlMigrationStep.alter_table alter))
          (alter_tables value_eq options from next)
          (flat_map drop_own_foreign_keys (dropped_tables options from next))
          (alter_tables-Fixable next)
          (All-flat_map (λ alter. Fixable (SqlMigrationStep.alter_table alter))
            drop_own_foreign_keys (dropped_tables options from next)
            (All_of (dropped_tables options from next) drop_own-Fixable)))
