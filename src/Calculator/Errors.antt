-- ===== src/Calculator/Errors.antt =====
-- `CalculatorError` of migration-engine/core/src/migration/datamodel_calculator.rs: a constructor
-- for each message, with the values that the message shows.
use prisma_engines.Prelude.{String, Outcome}
use prisma_engines.Steps.{CreateDirective, DeleteDirective}

pub data CalculatorError : Type 0 where
  source_exists : String → CalculatorError
  source_missing : String → CalculatorError
  enum_exists : String → CalculatorError
  enum_missing_update : String → CalculatorError
  enum_missing_delete : String → CalculatorError
  model_exists : String → CalculatorError
  model_missing_update : String → CalculatorError
  model_missing_delete : String → CalculatorError
  field_exists : String → String → CalculatorError
  create_field_unknown_model : String → CalculatorError
  update_field_unknown_model : String → CalculatorError
  delete_field_unknown_model : String → CalculatorError
  field_missing_update : String → String → CalculatorError
  field_missing_delete : String → String → CalculatorError
  type_exists : String → CalculatorError
  type_unknown : String → CalculatorError
  type_missing_delete : String → CalculatorError
  create_directive_absent : CreateDirective → CalculatorError
  delete_directive_absent : DeleteDirective → CalculatorError

-- What the calculation of a schema returns.
abbrev pub Calculated : Type 0 → Type 0
Calculated A = Outcome CalculatorError A
