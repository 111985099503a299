-- ===== src/Examples/Commanded.antt =====
-- The theorems on the commands, at a connector whose checks always answer with a warning.
use prisma_engines.Prelude.{
  ℕ, String, ◌≡◌, refl, ap, sym, Bool, ◌&&◌, Option, none, some, List, [], ◌∷◌, ◌++◌, find, not,
  true, false, Outcome, ok,
}
use prisma_engines.Ast.Expression.{Expression}
use prisma_engines.Ast.Schema.{SchemaAst, empty}
use prisma_engines.Steps.{MigrationStep}
use prisma_engines.Sql.Steps.{no_entries}
use prisma_engines.Engine.Effects.{pure}
use prisma_engines.Engine.MigrationStatus.{MigrationStatus}
use prisma_engines.Engine.Migration.{Migration}
use prisma_engines.Engine.Persistence.{
  MigrationPersistence, EmptyMigrationPersistence, newest, newest_applied, is_success,
}
use prisma_engines.Engine.Newest.{LastOf, is_kept, newest-LastOf}
use prisma_engines.Engine.Checks.{
  DestructiveChangeDiagnostics, DestructiveChangeDiagnostics_new, add_warning, has_warnings,
}
use prisma_engines.Engine.Connector.{MigrationApplier, DatamodelLibrary, MigrationConnector}
use prisma_engines.Engine.Commands.Apply.{ApplyMigrationInput, is_forced, execute}
use prisma_engines.Engine.Commands.Infer.{
  InferMigrationStepsInput, validate_assumed_migrations_are_not_applied,
}
use prisma_engines.Engine.Commands.Calculate.{applicable_steps}
use prisma_engines.Engine.Commands.Suffix.{applicable_steps-append}
use prisma_engines.Engine.Commands.Validated.{
  refusal, assumed, is_among_successful, validate_assumed_migrations_are_not_applied-find,
}
use prisma_engines.Engine.Commands.Held.{AlwaysWarns, replaced, execute-replaced}

-- What the database has been asked to do.
abbrev World : Type 0
World = List String

abbrev no_expression : String → Option Expression
no_expression _ = none

abbrev library : DatamodelLibrary SchemaAst String
library = record {
  empty_datamodel = empty;
  lift_ast = ok;
  parse_datamodel = λ _. ok empty;
  parse_schema_ast = λ _. ok empty;
  render_schema_ast_to_string = λ _. ok "enum";
  render_datamodel_to_string = λ _. ok "enum";
  to_pretty_string = λ problem _ _. problem;
}

abbrev applier : MigrationApplier World String ℕ String String
applier = record {
  apply = λ _ sql world. (ok tt, sql ∷ world);
  unapply = λ _ sql world. (ok tt, sql ∷ world);
}

abbrev idle_applier : MigrationApplier World String ℕ String String
idle_applier = record { apply = λ _ _. pure tt; unapply = λ _ _. pure tt }

abbrev warning : DestructiveChangeDiagnostics
warning =
    add_warning DestructiveChangeDiagnostics_new (some (record { description = "rows are lost" }))

abbrev connector : MigrationConnector World String ℕ String String SchemaAst
connector = record {
  migration_persistence = EmptyMigrationPersistence;
  initialize = pure tt;
  reset = pure tt;
  check_database_version_compatibility = λ _. [];
  database_migration_inferrer = record {
    infer = λ _ _ _. pure "DROP";
    infer_from_datamodels = λ _ _ _. pure "DROP";
  };
  render_steps_pretty = λ sql. ok (sql ∷ []);
  destructive_changes_checker = record {
    check = λ _. pure warning;
    check_unapply = λ _. pure warning;
  };
  serialize = λ sql. sql;
  deserialize_database_migration = λ sql. some sql;
  migration_applier = applier;
}

abbrev cmd : ApplyMigrationInput
cmd = record {
  migration_id = "first";
  steps = MigrationStep.create_enum (record { enum = "Role"; values = "ADMIN" ∷ [] }) ∷ [];
  force = none;
}

abbrev warned : Outcome String DestructiveChangeDiagnostics → Bool
warned (ok diagnostics) = has_warnings diagnostics
warned _ = false

connector-AlwaysWarns : AlwaysWarns connector
unfolding has_warnings add_warning DestructiveChangeDiagnostics_new no_entries
connector-AlwaysWarns migration world left diagnostics answer = sym (ap (λ r. warned r.0) answer)

unforced : is_forced cmd.force ≡ false
unfolding is_forced
unforced = refl

execute-replaced_example :
    execute {Problem = String} no_expression library (λ _. 5) "{}" connector cmd []
    ≡ execute no_expression library (λ _. 5) "{}" (replaced pure idle_applier connector) cmd []
execute-replaced_example =
    execute-replaced no_expression library (λ _. 5) "{}" connector connector-AlwaysWarns cmd
      unforced pure idle_applier []

abbrev named : String → MigrationStatus → Migration ℕ String
named name status = record {
  name = name;
  revision = 1;
  status = status;
  applied = 0;
  rolled_back = 0;
  datamodel_string = "";
  datamodel_steps = [];
  database_migration = "{}";
  errors = [];
  started_at = 5;
  finished_at = none;
}

abbrev loaded : List (Migration ℕ String)
loaded =
    named "first" MigrationStatus.migration_success
    ∷ named "second" MigrationStatus.migration_failure
    ∷ named "watch-1" MigrationStatus.migration_success
    ∷ []

newest-LastOf_example :
    LastOf is_kept loaded (newest loaded)
    × LastOf (λ migration. is_kept migration && is_success migration) loaded (newest_applied loaded)
newest-LastOf_example = newest-LastOf loaded

abbrev is_enum_step : MigrationStep → Bool
is_enum_step (MigrationStep.create_enum _) = true
is_enum_step _ = false

-- An equality that tells less than the derived one.
abbrev alike : Bool → Bool → Bool
alike true b = b
alike false b = not b

alike_refl : (b : Bool) → alike b b ≡ true
alike_refl true = refl
alike_refl false = refl

abbrev same_kind : MigrationStep → MigrationStep → Bool
same_kind a b = alike (is_enum_step a) (is_enum_step b)

abbrev later : List MigrationStep
later = MigrationStep.delete_enum (record { enum = "Role" }) ∷ []

applicable_steps-append_example :
    applicable_steps same_kind
      (record { steps_to_apply = later; assume_to_be_applied = some (cmd.steps ++ later) })
    ≡ cmd.steps
applicable_steps-append_example =
    applicable_steps-append same_kind (λ step. alike_refl (is_enum_step step)) cmd.steps later

abbrev stored : MigrationPersistence World String ℕ String
stored = record EmptyMigrationPersistence { load_all = pure loaded }

abbrev input : InferMigrationStepsInput
input = record {
  migration_id = "third";
  datamodel = "enum";
  assume_to_be_applied = none;
  assume_applied_migrations = some (
      record { migration_id = "second"; datamodel_steps = later }
      ∷ record { migration_id = "first"; datamodel_steps = [] }
      ∷ []);
}

validate_assumed_migrations_are_not_applied-find_example :
    validate_assumed_migrations_are_not_applied {Problem = String} (λ id. id) stored input [] ≡ (
      refusal
          (λ id. id)
          (find (is_among_successful loaded) (assumed input.assume_applied_migrations)),
      [],
    )
validate_assumed_migrations_are_not_applied-find_example =
    validate_assumed_migrations_are_not_applied-find (λ id. id) stored loaded (λ world. refl) input
      []
