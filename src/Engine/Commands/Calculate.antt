-- ===== src/Engine/Commands/Calculate.antt =====
-- The commands that calculate without the stored migrations: calculate_datamodel.rs and
-- calculate_database_steps.rs of migration-engine/core/src/commands.
use Prim.Native.Nat.{◌-◌}
use prisma_engines.Prelude.{
  ℕ, zero, suc, String, Bool, true, false, ◌&&◌, Option, none, some, List, [], ◌∷◌, length,
  if◌then◌else◌,
}
use prisma_engines.Ast.Expression.{Expression}
use prisma_engines.Ast.Schema.{empty}
use prisma_engines.Steps.{MigrationStep}
use prisma_engines.Calculator.Apply as Calculator
use prisma_engines.Engine.Effects.{Effect, ◌>>=◌, pure, lift}
use prisma_engines.Engine.Steps.{catch}
use prisma_engines.Engine.Connector.{
  DatamodelLibrary, MigrationConnector, CommandError, map_err, unwrapped,
}
use prisma_engines.Engine.Commands.Apply.{MigrationStepsResultOutput}

pub record CalculateDatamodelInput : Type 0 where
  pub steps : List MigrationStep

pub record CalculateDatamodelOutput : Type 0 where
  pub datamodel : String

module _ {World Failure Datamodel Problem : Type 0} (parse : String → Option Expression)
    (library : DatamodelLibrary Datamodel Problem) (input : CalculateDatamodelInput) where
  unfoldable pub calculate_datamodel :
      Effect World (CommandError Failure Problem) CalculateDatamodelOutput
  calculate_datamodel = do
    datamodel ← lift (map_err CommandError.generic (Calculator.apply parse empty input.steps))
    text ← lift (unwrapped (library.render_schema_ast_to_string datamodel))
    pure (record { datamodel = text })

pub record CalculateDatabaseStepsInput : Type 0 where
  pub steps_to_apply : List MigrationStep
  pub assume_to_be_applied : Option (List MigrationStep)

unfoldable pub leb : ℕ → ℕ → Bool
leb zero b = true
leb (suc a) zero = false
leb (suc a) (suc b) = leb a b

module _ {A : Type 0} where
  -- The slices `[..n]` and `[n..]`.
  unfoldable pub take : ℕ → List A → List A
  take zero xs = []
  take (suc n) [] = []
  take (suc n) (x ∷ xs) = x ∷ take n xs

  unfoldable pub drop : ℕ → List A → List A
  drop zero xs = xs
  drop (suc n) [] = []
  drop (suc n) (x ∷ xs) = drop n xs

  module _ (eq : A → A → Bool) where
    -- `==` of two slices, over the `==` of their entries, which a derive generates.
    unfoldable pub slices_eq : List A → List A → Bool
    slices_eq [] [] = true
    slices_eq (x ∷ xs) (y ∷ ys) = eq x y && slices_eq xs ys
    slices_eq _ _ = false

    unfoldable pub without_suffix : List A → List A → List A
    without_suffix steps_to_apply all_steps =
        let start_idx = length all_steps - length steps_to_apply in
        if leb (length all_steps) (length steps_to_apply)
        then all_steps
        else if slices_eq (drop start_idx all_steps) steps_to_apply
        then take start_idx all_steps
        else all_steps

module _ (step_eq : MigrationStep → MigrationStep → Bool) where
  unfoldable pub applicable_steps : CalculateDatabaseStepsInput → List MigrationStep
  applicable_steps input = elim input.assume_to_be_applied [
    | some all_steps ↦ without_suffix step_eq input.steps_to_apply all_steps
    | none ↦ []
  ]

module _ {World Failure Time Json DatabaseMigration Datamodel Problem : Type 0}
    (parse : String → Option Expression) (library : DatamodelLibrary Datamodel Problem)
    (step_eq : MigrationStep → MigrationStep → Bool)
    (connector : MigrationConnector World Failure Time Json DatabaseMigration Datamodel)
    (input : CalculateDatabaseStepsInput) where
  unfoldable pub calculate_database_steps :
      Effect World (CommandError Failure Problem) (MigrationStepsResultOutput Json)
  calculate_database_steps = do
    assumed_datamodel_ast ← lift (
        map_err CommandError.generic
          (Calculator.apply parse empty (applicable_steps step_eq input)))
    assumed_datamodel ←
        lift (map_err CommandError.produced_bad_datamodel (library.lift_ast assumed_datamodel_ast))
    next_datamodel_ast ← lift (
        map_err CommandError.generic
          (Calculator.apply parse assumed_datamodel_ast input.steps_to_apply))
    next_datamodel ←
        lift (map_err CommandError.produced_bad_datamodel (library.lift_ast next_datamodel_ast))
    database_migration ← catch CommandError.connector_error (
        connector.database_migration_inferrer.infer assumed_datamodel next_datamodel
          input.steps_to_apply)
    diagnostics ←
        catch CommandError.connector_error
          (connector.destructive_changes_checker.check database_migration)
    database_steps ←
        lift
          (map_err CommandError.connector_error (connector.render_steps_pretty database_migration))
    datamodel ← lift (unwrapped (library.render_schema_ast_to_string next_datamodel_ast))
    pure (record {
      datamodel = datamodel;
      datamodel_steps = input.steps_to_apply;
      database_steps = database_steps;
      warnings = diagnostics.warnings;
      errors = [];
      general_errors = [];
      unexecutable_migrations = diagnostics.unexecutable_migrations;
    })
