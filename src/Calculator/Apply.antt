-- ===== src/Calculator/Apply.antt =====
-- The dispatch on a step and the loop over the steps:
-- migration-engine/core/src/migration/datamodel_calculator.rs.
use prisma_engines.Prelude.{String, Option, List, [], ◌∷◌, ok, ◌>>=◌}
use prisma_engines.Ast.Expression.{Expression}
use prisma_engines.Ast.Schema.{SchemaAst}
use prisma_engines.Steps.{
  MigrationStep, create_model, update_model, delete_model, create_directive, delete_directive,
  create_argument, update_argument, delete_argument, create_field, delete_field, update_field,
  create_enum, update_enum, delete_enum, create_type_alias, update_type_alias, delete_type_alias,
  create_source, delete_source,
}
use prisma_engines.Calculator.Errors.{Calculated}
use prisma_engines.Calculator.Tops.{
  apply_create_model, apply_update_model, apply_delete_model, apply_create_enum, apply_update_enum,
  apply_delete_enum, apply_create_type_alias, apply_update_type_alias, apply_delete_type_alias,
  apply_create_source, apply_delete_source,
}
use prisma_engines.Calculator.Fields.{apply_create_field, apply_update_field, apply_delete_field}
use prisma_engines.Calculator.Directives.{
  apply_create_directive, apply_delete_directive, apply_create_directive_argument,
  apply_update_directive_argument, apply_delete_directive_argument,
}

module _ (parse : String → Option Expression) where
  unfoldable pub apply_step : SchemaAst → MigrationStep → Calculated SchemaAst
  apply_step datamodel (create_enum step) = apply_create_enum datamodel step
  apply_step datamodel (update_enum step) = apply_update_enum datamodel step
  apply_step datamodel (delete_enum step) = apply_delete_enum datamodel step
  apply_step datamodel (create_model step) = apply_create_model datamodel step
  apply_step datamodel (update_model step) = apply_update_model datamodel step
  apply_step datamodel (delete_model step) = apply_delete_model datamodel step
  apply_step datamodel (create_field step) = apply_create_field datamodel step
  apply_step datamodel (update_field step) = apply_update_field datamodel step
  apply_step datamodel (delete_field step) = apply_delete_field datamodel step
  apply_step datamodel (create_type_alias step) = apply_create_type_alias datamodel step
  apply_step datamodel (update_type_alias step) = apply_update_type_alias datamodel step
  apply_step datamodel (delete_type_alias step) = apply_delete_type_alias datamodel step
  apply_step datamodel (create_directive step) = apply_create_directive parse datamodel step
  apply_step datamodel (delete_directive step) = apply_delete_directive datamodel step
  apply_step datamodel (create_argument step) = apply_create_directive_argument parse datamodel step
  apply_step datamodel (delete_argument step) = apply_delete_directive_argument datamodel step
  apply_step datamodel (update_argument step) = apply_update_directive_argument parse datamodel step
  apply_step datamodel (create_source step) = apply_create_source datamodel step
  apply_step datamodel (delete_source step) = apply_delete_source datamodel step

  -- `apply`, which `DataModelCalculatorImpl.infer` calls on a copy of the current schema.
  unfoldable pub apply : SchemaAst → List MigrationStep → Calculated SchemaAst
  apply schema [] = ok schema
  apply schema (step ∷ steps) = apply_step schema step >>= λ next. apply next steps
