-- ===== src/Sql/TableNames.antt =====
-- What the steps between two SQL schemas do to the names of tables and enums:
-- migration-engine/connectors/sql-migration-connector/src/sql_schema_differ.rs.
use prisma_engines.Prelude.{
  String, ◌==◌, ◌≡◌, refl, ap, ◌∙◌, not, ◌&&◌, ◌||◌, Bool, List, [], ◌∷◌, ◌++◌, map, any, filter,
  is_some, find, arith, eq_iff, eq-sym, fun_ext, Bool-cases, inl, inr,
}
use prisma_engines.Sql.Steps.{SqlMigrationStep}
use prisma_engines.Sql.Differ.Diff.{SqlSchemaDiff, into_steps}
use prisma_engines.Sql.Catalog.{
  Names, table_names_after, run, run-append, run_still, run_skip, run_added, run_removed,
}

module _ {Value : Type 0} (d : SqlSchemaDiff Value) where
  skip_tables :
      {A : Type 0} (wrap : A → SqlMigrationStep Value) (xs : List A)
      (rest : List (SqlMigrationStep Value))
      → ((a : A) (names : Names) → table_names_after (wrap a) names ≡ names)
      → (names : Names)
      → run table_names_after (map wrap xs ++ rest) names ≡ run table_names_after rest names
  skip_tables wrap xs rest still names = run_skip table_names_after wrap xs rest still names

  dropping : List (SqlMigrationStep Value)
  dropping =
      map SqlMigrationStep.drop_table d.drop_tables
      ++ (map SqlMigrationStep.drop_enum d.drop_enums
          ++ map SqlMigrationStep.alter_index d.alter_indexes)

  dropping-run :
      (names : Names)
      → run (table_names_after {Value = Value}) dropping names
        ≡ run
            (table_names_after {Value = Value})
            (map SqlMigrationStep.drop_table d.drop_tables)
            names
  unfolding table_names_after dropping
  dropping-run names =
      run-append table_names_after (map SqlMigrationStep.drop_table d.drop_tables) _ names
      ∙ skip_tables SqlMigrationStep.drop_enum d.drop_enums _ (λ _ _. refl) _
      ∙ run_still table_names_after SqlMigrationStep.alter_index d.alter_indexes (λ _ _. refl) _

  tables_run :
      (names : Names)
      → run (table_names_after {Value = Value}) (into_steps d) names
        ≡ run (table_names_after {Value = Value}) (map SqlMigrationStep.drop_table d.drop_tables) (
            run
              (table_names_after {Value = Value})
              (map SqlMigrationStep.create_table d.create_tables)
              names)
  unfolding into_steps table_names_after dropping
  tables_run names =
      skip_tables SqlMigrationStep.create_enum d.create_enums _ (λ _ _. refl) names
      ∙ skip_tables SqlMigrationStep.alter_enum d.alter_enums _ (λ _ _. refl) names
      ∙ skip_tables SqlMigrationStep.drop_index d.drop_indexes _ (λ _ _. refl) names
      ∙ run-append table_names_after (map SqlMigrationStep.create_table d.create_tables) _ names
      ∙ skip_tables SqlMigrationStep.alter_table d.alter_tables _ (λ _ _. refl) _
      ∙ skip_tables SqlMigrationStep.create_index d.create_indexes _ (λ _ _. refl) _
      ∙ skip_tables SqlMigrationStep.add_foreign_key d.add_foreign_keys _ (λ _ _. refl) _
      ∙ dropping-run _

  pub tables_left :
      (names : Names) (n : String)
      → run (table_names_after {Value = Value}) (into_steps d) names n ≡ (
          not (any (λ drop. drop.name == n) d.drop_tables)
          && (any (λ create. create.table.name == n) d.create_tables || names n))
  unfolding table_names_after
  tables_left names n =
      ap (λ m. m n) (tables_run names)
      ∙ run_removed table_names_after SqlMigrationStep.drop_table (λ drop. drop.name) d.drop_tables
          (λ _ _. refl) _ n
      ∙ ap (λ b. not (any (λ drop. drop.name == n) d.drop_tables) && b)
          (run_added table_names_after SqlMigrationStep.create_table (λ create. create.table.name)
            d.create_tables (λ _ _. refl) names n)

-- Tests of the names in filtered lists.
module _ {A : Type 0} (ident : A → String) (n : String) where
  pub any-filter :
      (q : String → Bool) (xs : List A)
      → any (λ a. ident a == n) (filter (λ a. q (ident a)) xs) ≡ (q n && any (λ a. ident a == n) xs)
  unfolding any filter
  any-filter q [] = elim (Bool-cases (q n)) [ inl e ↦ rw e refl | inr e ↦ rw e refl ]
  any-filter q (x ∷ xs) = ground (arith, any-filter q xs, eq_iff (ident x) n)

  pub any-map :
      {B : Type 0} (other : B → String) (f : A → B) (xs : List A)
      → ((a : A) → other (f a) ≡ ident a)
      → any (λ b. other b == n) (map f xs) ≡ any (λ a. ident a == n) xs
  unfolding any
  any-map other f [] same = refl
  any-map other f (x ∷ xs) same =
      ap (λ m. (m == n) || any (λ b. other b == n) (map f xs)) (same x)
      ∙ ap (λ b. (ident x == n) || b) (any-map other f xs same)

  pub any-is_some :
      (xs : List A) → is_some (find (λ a. ident a == n) xs) ≡ any (λ a. ident a == n) xs
  unfolding any find
  any-is_some [] = refl
  any-is_some (x ∷ xs) = ground (arith, any-is_some xs)

  pub any_flipped : (xs : List A) → any (λ a. n == ident a) xs ≡ any (λ a. ident a == n) xs
  any_flipped xs = ap (λ p. any p xs) (fun_ext (λ a. eq-sym n (ident a)))
