-- ===== src/Sql/Phases.antt =====
-- The order of the steps, which comments of
-- migration-engine/connectors/sql-migration-connector/src/sql_schema_differ.rs ask for.
use prisma_engines.Prelude.{ℕ, ◌+◌, ◌≤◌, ◌≡◌, refl, List, [], ◌∷◌, ◌++◌, map, All, All-map, arith}
use prisma_engines.Sql.Steps.{SqlMigrationStep}
use prisma_engines.Sql.Differ.Diff.{SqlSchemaDiff, into_steps}

-- Enums and tables are created before tables are altered, these before indexes are created, and
-- those before foreign keys are added; only then are tables and enums dropped.
unfoldable pub phase : {Value : Type 0} → SqlMigrationStep Value → ℕ
phase (SqlMigrationStep.create_enum _) = 0
phase (SqlMigrationStep.alter_enum _) = 1
phase (SqlMigrationStep.drop_index _) = 2
phase (SqlMigrationStep.create_table _) = 3
phase (SqlMigrationStep.alter_table _) = 4
phase (SqlMigrationStep.create_index _) = 5
phase (SqlMigrationStep.add_foreign_key _) = 6
phase (SqlMigrationStep.drop_table _) = 7
phase (SqlMigrationStep.drop_enum _) = 8
phase (SqlMigrationStep.alter_index _) = 9
phase _ = 10

module _ {Value : Type 0} where
  -- No step stands behind one of a later phase.
  abbrev pub InPhases : List (SqlMigrationStep Value) → Type 0
  InPhases [] = Unit
  InPhases (x ∷ xs) = All (λ y. phase x ≤ phase y) xs × InPhases xs

  abbrev From : ℕ → List (SqlMigrationStep Value) → Type 0
  From k steps = All (λ y. k ≤ phase y) steps × InPhases steps

  block :
      {A : Type 0} (k : ℕ) (wrap : A → SqlMigrationStep Value)
      → ((a : A) → phase (wrap a) ≡ k)
      → (xs : List A) (rest : List (SqlMigrationStep Value)) → From (k + 1) rest
      → From k (map wrap xs ++ rest)
  block k wrap of_phase [] rest h = (All-map rest (λ y lower. omega arith) h.0, h.1)
  block k wrap of_phase (x ∷ xs) rest h =
      let tail : From k (map wrap xs ++ rest) = block k wrap of_phase xs rest h in
      (
        (omega (arith, of_phase x), tail.0),
        (All-map (map wrap xs ++ rest) (λ y lower. omega (arith, of_phase x)) tail.0, tail.1),
      )

  last_block :
      {A : Type 0} (k : ℕ) (wrap : A → SqlMigrationStep Value)
      → ((a : A) → phase (wrap a) ≡ k)
      → (xs : List A) → From k (map wrap xs)
  last_block k wrap of_phase [] = (tt, tt)
  last_block k wrap of_phase (x ∷ xs) =
      let tail : From k (map wrap xs) = last_block k wrap of_phase xs in
      (
        (omega (arith, of_phase x), tail.0),
        (All-map (map wrap xs) (λ y lower. omega (arith, of_phase x)) tail.0, tail.1),
      )

  -- The steps of any difference stand in the order of their phases.
  pub into_steps-InPhases : (d : SqlSchemaDiff Value) → InPhases (into_steps d)
  unfolding into_steps phase
  into_steps-InPhases d =
      (block 0 SqlMigrationStep.create_enum (λ _. refl) d.create_enums _
        (block 1 SqlMigrationStep.alter_enum (λ _. refl) d.alter_enums _
          (block 2 SqlMigrationStep.drop_index (λ _. refl) d.drop_indexes _
            (block 3 SqlMigrationStep.create_table (λ _. refl) d.create_tables _
              (block 4 SqlMigrationStep.alter_table (λ _. refl) d.alter_tables _
                (block 5 SqlMigrationStep.create_index (λ _. refl) d.create_indexes _
                  (block 6 SqlMigrationStep.add_foreign_key (λ _. refl) d.add_foreign_keys _
                    (block 7 SqlMigrationStep.drop_table (λ _. refl) d.drop_tables _
                      (block 8 SqlMigrationStep.drop_enum (λ _. refl) d.drop_enums _
                        (last_block 9 SqlMigrationStep.alter_index (λ _. refl)
                          d.alter_indexes)))))))))).1
