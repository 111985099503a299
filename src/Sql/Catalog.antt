-- ===== src/Sql/Catalog.antt =====
-- What the steps of migration-engine/connectors/sql-migration-connector/src/sql_migration.rs do to
-- the names of a database's tables and enums: an abstract view of the database.
use prisma_engines.Prelude.{
  String, ◌==◌, ◌≡◌, refl, ap, ◌∙◌, true, false, not, ◌&&◌, ◌||◌, Bool, List, [], ◌∷◌, ◌++◌, map,
  any,
}
use prisma_engines.Sql.Steps.{SqlMigrationStep}

-- The names that are there.
abbrev pub Names : Type 0
Names = String → Bool

abbrev pub with_name : String → Names → Names
with_name name names n = (name == n) || names n

abbrev pub without_name : String → Names → Names
without_name name names n = not (name == n) && names n

unfoldable pub without_names : List String → Names → Names
without_names [] names = names
without_names (name ∷ rest) names = without_names rest (without_name name names)

module _ {Value : Type 0} where
  unfoldable pub table_names_after : SqlMigrationStep Value → Names → Names
  table_names_after (SqlMigrationStep.create_table create) names = with_name create.table.name names
  table_names_after (SqlMigrationStep.drop_table drop) names = without_name drop.name names
  table_names_after (SqlMigrationStep.drop_tables drop) names = without_names drop.names names
  table_names_after (SqlMigrationStep.rename_table name new_name) names =
      with_name new_name (without_name name names)
  table_names_after _ names = names

  unfoldable pub enum_names_after : SqlMigrationStep Value → Names → Names
  enum_names_after (SqlMigrationStep.create_enum create) names = with_name create.name names
  enum_names_after (SqlMigrationStep.drop_enum drop) names = without_name drop.name names
  enum_names_after _ names = names

or_swap : (a b c : Bool) → (b || (a || c)) ≡ ((a || b) || c)
or_swap true true c = refl
or_swap true false c = refl
or_swap false b c = refl

not-or : (a b c : Bool) → (not b && (not a && c)) ≡ (not (a || b) && c)
not-or true true c = refl
not-or true false c = refl
not-or false b c = refl

-- The steps one after the other.
module _ {Step : Type 0} (change : Step → Names → Names) where
  unfoldable pub run : List Step → Names → Names
  run [] names = names
  run (step ∷ steps) names = run steps (change step names)

  pub run-append :
      (xs ys : List Step) (names : Names) → run (xs ++ ys) names ≡ run ys (run xs names)
  unfolding run
  run-append [] ys names = refl
  run-append (x ∷ xs) ys names = run-append xs ys (change x names)

  -- Steps that leave the names alone.
  pub run_still :
      {A : Type 0} (wrap : A → Step) (xs : List A)
      → ((a : A) (names : Names) → change (wrap a) names ≡ names)
      → (names : Names) → run (map wrap xs) names ≡ names
  unfolding run
  run_still wrap [] still names = refl
  run_still wrap (x ∷ xs) still names =
      ap (run (map wrap xs)) (still x names) ∙ run_still wrap xs still names

  pub run_skip :
      {A : Type 0} (wrap : A → Step) (xs : List A) (rest : List Step)
      → ((a : A) (names : Names) → change (wrap a) names ≡ names)
      → (names : Names) → run (map wrap xs ++ rest) names ≡ run rest names
  run_skip wrap xs rest still names =
      run-append (map wrap xs) rest names ∙ ap (run rest) (run_still wrap xs still names)

  -- Steps that add names, and steps that remove them.
  module _ {A : Type 0} (wrap : A → Step) (ident : A → String) where
    pub run_added :
        (xs : List A)
        → ((a : A) (names : Names) → change (wrap a) names ≡ with_name (ident a) names)
        → (names : Names) (n : String)
        → run (map wrap xs) names n ≡ (any (λ a. ident a == n) xs || names n)
    unfolding run any
    run_added [] adds names n = refl
    run_added (x ∷ xs) adds names n =
        ap (λ m. run (map wrap xs) m n) (adds x names)
        ∙ run_added xs adds (with_name (ident x) names) n
        ∙ or_swap (ident x == n) (any (λ a. ident a == n) xs) (names n)

    pub run_removed :
        (xs : List A)
        → ((a : A) (names : Names) → change (wrap a) names ≡ without_name (ident a) names)
        → (names : Names) (n : String)
        → run (map wrap xs) names n ≡ (not (any (λ a. ident a == n) xs) && names n)
    unfolding run any
    run_removed [] removes names n = refl
    run_removed (x ∷ xs) removes names n =
        ap (λ m. run (map wrap xs) m n) (removes x names)
        ∙ run_removed xs removes (without_name (ident x) names) n
        ∙ not-or (ident x == n) (any (λ a. ident a == n) xs) (names n)
