-- ===== src/Sql/EnumNames.antt =====
-- What the steps between two SQL schemas do to the names of enums:
-- migration-engine/connectors/sql-migration-connector/src/sql_schema_differ.rs.
use prisma_engines.Prelude.{String, ◌==◌, ◌≡◌, refl, ap, ◌∙◌, not, ◌&&◌, ◌||◌, List, ◌++◌, map, any}
use prisma_engines.Sql.Steps.{SqlMigrationStep}
use prisma_engines.Sql.Differ.Diff.{SqlSchemaDiff, into_steps}
use prisma_engines.Sql.Catalog.{
  Names, enum_names_after, run, run-append, run_still, run_skip, run_added, run_removed,
}

module _ {Value : Type 0} (d : SqlSchemaDiff Value) where
  skip_enums :
      {A : Type 0} (wrap : A → SqlMigrationStep Value) (xs : List A)
      (rest : List (SqlMigrationStep Value))
      → ((a : A) (names : Names) → enum_names_after (wrap a) names ≡ names)
      → (names : Names)
      → run enum_names_after (map wrap xs ++ rest) names ≡ run enum_names_after rest names
  skip_enums wrap xs rest still names = run_skip enum_names_after wrap xs rest still names

  enums_run :
      (names : Names)
      → run (enum_names_after {Value = Value}) (into_steps d) names
        ≡ run (enum_names_after {Value = Value}) (map SqlMigrationStep.drop_enum d.drop_enums) (
            run
              (enum_names_after {Value = Value})
              (map SqlMigrationStep.create_enum d.create_enums)
              names)
  unfolding into_steps enum_names_after
  enums_run names =
      run-append enum_names_after (map SqlMigrationStep.create_enum d.create_enums) _ names
      ∙ skip_enums SqlMigrationStep.alter_enum d.alter_enums _ (λ _ _. refl) _
      ∙ skip_enums SqlMigrationStep.drop_index d.drop_indexes _ (λ _ _. refl) _
      ∙ skip_enums SqlMigrationStep.create_table d.create_tables _ (λ _ _. refl) _
      ∙ skip_enums SqlMigrationStep.alter_table d.alter_tables _ (λ _ _. refl) _
      ∙ skip_enums SqlMigrationStep.create_index d.create_indexes _ (λ _ _. refl) _
      ∙ skip_enums SqlMigrationStep.add_foreign_key d.add_foreign_keys _ (λ _ _. refl) _
      ∙ skip_enums SqlMigrationStep.drop_table d.drop_tables _ (λ _ _. refl) _
      ∙ run-append enum_names_after (map SqlMigrationStep.drop_enum d.drop_enums) _ _
      ∙ run_still enum_names_after SqlMigrationStep.alter_index d.alter_indexes (λ _ _. refl) _

  pub enums_left :
      (names : Names) (n : String)
      → run (enum_names_after {Value = Value}) (into_steps d) names n ≡ (
          not (any (λ drop. drop.name == n) d.drop_enums)
          && (any (λ create. create.name == n) d.create_enums || names n))
  unfolding enum_names_after
  enums_left names n =
      ap (λ m. m n) (enums_run names)
      ∙ run_removed enum_names_after SqlMigrationStep.drop_enum (λ drop. drop.name) d.drop_enums
          (λ _ _. refl) _ n
      ∙ ap (λ b. not (any (λ drop. drop.name == n) d.drop_enums) && b)
          (run_added enum_names_after SqlMigrationStep.create_enum (λ create. create.name)
            d.create_enums (λ _ _. refl) names n)
