-- ===== src/Calculator/Frame.antt =====
-- What a step of migration-engine/core/src/migration/datamodel_calculator.rs leaves alone: the
-- top-level entries of other kinds than the one it is about.
use prisma_engines.Prelude.{String, Option, is_some, is_none}
use prisma_engines.Ast.Expression.{Expression}
use prisma_engines.Ast.Node.{Top}
use prisma_engines.Ast.Kind.{model_kind, enum_kind, source_kind, type_kind}
use prisma_engines.Ast.Schema.{
  SchemaAst, find_model_mut, find_enum_mut, find_type_alias_mut, find_field_mut, find_model,
  find_field, find_enum, find_source, find_type_alias,
}
use prisma_engines.Ast.Schema.Located.{push_frame, retain_frame}
use prisma_engines.Steps.{
  MigrationStep, create_model, update_model, delete_model, create_directive, delete_directive,
  create_argument, update_argument, delete_argument, create_field, delete_field, update_field,
  create_enum, update_enum, delete_enum, create_type_alias, update_type_alias, delete_type_alias,
  create_source, delete_source,
}
use prisma_engines.Steps.Location.{DirectivePath, ArgumentLocation, to_ast_expression}
use prisma_engines.Steps.Location
use prisma_engines.Steps
use prisma_engines.Calculator.Tops.{
  new_model, new_enum, new_type_alias, new_source, apply_create_model, apply_update_model,
  apply_delete_model, apply_create_enum, apply_update_enum, apply_delete_enum,
  apply_create_type_alias, apply_update_type_alias, apply_delete_type_alias, apply_create_source,
  apply_delete_source,
}
use prisma_engines.Calculator.Fields.{apply_create_field, apply_update_field, apply_delete_field}
use prisma_engines.Calculator.Directives.{
  apply_create_directive, apply_delete_directive, apply_create_directive_argument,
  apply_update_directive_argument, apply_delete_directive_argument, find_directives_mut,
  find_argument_container, path_arguments, update_arguments,
}
use prisma_engines.Calculator.Apply.{apply_step}
use prisma_engines.Calculator.Kinds.{enums, models, sources, types, step_kind}
use prisma_engines.Calculator.Unchanged.{
  Hides, Unchanged, Unchanged-ok_or, Unchanged-unwrap, Unchanged-found, Unchanged-parsed,
  Unchanged-if,
}
use prisma_engines.Calculator.FramedRefs.{
  Framed-model, Framed-enum, Framed-type, Framed-field, Framed-directives, Framed-container,
}

module _ {B : Type 0} (other : Top → Option B) where
  module _ (s : SchemaAst) where
    apply_create_model-Unchanged :
        Hides other models
        → (step : Steps.CreateModel) → Unchanged other s (apply_create_model s step)
    unfolding apply_create_model
    apply_create_model-Unchanged h step =
        Unchanged-if other s (is_some (find_model s step.model)) _ _ tt
          (push_frame other model_kind h s.tops (new_model step.model))

    apply_update_model-Unchanged :
        Hides other models
        → (step : Steps.UpdateModel) → Unchanged other s (apply_update_model s step)
    unfolding apply_update_model
    apply_update_model-Unchanged h step =
        Unchanged-ok_or other s (find_model_mut s step.model) _ _
          (Framed-model other s h step.model) (λ r k. k _)

    apply_delete_model-Unchanged :
        Hides other models
        → (step : Steps.DeleteModel) → Unchanged other s (apply_delete_model s step)
    unfolding apply_delete_model
    apply_delete_model-Unchanged h step =
        Unchanged-found other s (find_model s step.model) _ _
          (λ _. retain_frame other model_kind h step.model s.tops)

    apply_create_enum-Unchanged :
        Hides other enums → (step : Steps.CreateEnum) → Unchanged other s (apply_create_enum s step)
    unfolding apply_create_enum
    apply_create_enum-Unchanged h step =
        Unchanged-if other s (is_some (find_enum s step.enum)) _ _ tt
          (push_frame other enum_kind h s.tops (new_enum step.enum step.values))

    apply_update_enum-Unchanged :
        Hides other enums → (step : Steps.UpdateEnum) → Unchanged other s (apply_update_enum s step)
    unfolding apply_update_enum
    apply_update_enum-Unchanged h step =
        Unchanged-ok_or other s (find_enum_mut s step.enum) _ _ (Framed-enum other s h step.enum)
          (λ r k. k _)

    apply_delete_enum-Unchanged :
        Hides other enums → (step : Steps.DeleteEnum) → Unchanged other s (apply_delete_enum s step)
    unfolding apply_delete_enum
    apply_delete_enum-Unchanged h step =
        Unchanged-found other s (find_enum s step.enum) _ _
          (λ _. retain_frame other enum_kind h step.enum s.tops)

    apply_create_type_alias-Unchanged :
        Hides other types
        → (step : Steps.CreateTypeAlias) → Unchanged other s (apply_create_type_alias s step)
    unfolding apply_create_type_alias
    apply_create_type_alias-Unchanged h step =
        Unchanged-if other s (is_some (find_type_alias s step.type_alias)) _ _ tt
          (push_frame other type_kind h s.tops (new_type_alias step))

    apply_update_type_alias-Unchanged :
        Hides other types
        → (step : Steps.UpdateTypeAlias) → Unchanged other s (apply_update_type_alias s step)
    unfolding apply_update_type_alias
    apply_update_type_alias-Unchanged h step =
        Unchanged-ok_or other s (find_type_alias_mut s step.type_alias) _ _
          (Framed-type other s h step.type_alias) (λ r k. k _)

    apply_delete_type_alias-Unchanged :
        Hides other types
        → (step : Steps.DeleteTypeAlias) → Unchanged other s (apply_delete_type_alias s step)
    unfolding apply_delete_type_alias
    apply_delete_type_alias-Unchanged h step =
        Unchanged-found other s (find_type_alias s step.type_alias) _ _
          (λ _. retain_frame other type_kind h step.type_alias s.tops)

    apply_create_source-Unchanged :
        Hides other sources
        → (step : Steps.CreateSource) → Unchanged other s (apply_create_source s step)
    unfolding apply_create_source
    apply_create_source-Unchanged h step =
        Unchanged-if other s (is_some (find_source s step.source)) _ _ tt
          (push_frame other source_kind h s.tops (new_source step.source))

    apply_delete_source-Unchanged :
        Hides other sources
        → (step : Steps.DeleteSource) → Unchanged other s (apply_delete_source s step)
    unfolding apply_delete_source
    apply_delete_source-Unchanged h step =
        Unchanged-found other s (find_model s step.source) _ _
          (λ _. retain_frame other source_kind h step.source s.tops)

    apply_create_field-Unchanged :
        Hides other models
        → (step : Steps.CreateField) → Unchanged other s (apply_create_field s step)
    unfolding apply_create_field
    apply_create_field-Unchanged h step =
        Unchanged-if other s (is_some (find_field s step.model step.field)) _ _ tt (
          Unchanged-ok_or other s (find_model_mut s step.model) _ _
            (Framed-model other s h step.model) (λ r k. k _))

    apply_update_field-Unchanged :
        Hides other models
        → (step : Steps.UpdateField) → Unchanged other s (apply_update_field s step)
    unfolding apply_update_field
    apply_update_field-Unchanged h step =
        Unchanged-if other s (is_none (find_model s step.model)) _ _ tt (
          Unchanged-ok_or other s (find_field_mut s step.model step.field) _ _
            (Framed-field other s h step.model step.field) (λ r k. k _))

    apply_delete_field-Unchanged :
        Hides other models
        → (step : Steps.DeleteField) → Unchanged other s (apply_delete_field s step)
    unfolding apply_delete_field
    apply_delete_field-Unchanged h step =
        Unchanged-found other s (find_model s step.model) _ _ (λ m.
          Unchanged-found other s (find_field s step.model step.field) _ _ (λ f.
            Unchanged-unwrap other s (find_model_mut s step.model) _
              (Framed-model other s h step.model) (λ r k. k _)))

  module _ (parse : String → Option Expression) (s : SchemaAst) where
    -- What a step shows of the entries of other kinds, whichever step it is.
    pub apply_step-Unchanged :
        (step : MigrationStep)
        → Hides other (step_kind step)
        → Unchanged other s (apply_step parse s step)
    unfolding apply_step apply_create_directive apply_delete_directive
        apply_create_directive_argument apply_update_directive_argument
        apply_delete_directive_argument
    apply_step-Unchanged (create_model step) h = apply_create_model-Unchanged s h step
    apply_step-Unchanged (update_model step) h = apply_update_model-Unchanged s h step
    apply_step-Unchanged (delete_model step) h = apply_delete_model-Unchanged s h step
    apply_step-Unchanged (create_field step) h = apply_create_field-Unchanged s h step
    apply_step-Unchanged (update_field step) h = apply_update_field-Unchanged s h step
    apply_step-Unchanged (delete_field step) h = apply_delete_field-Unchanged s h step
    apply_step-Unchanged (create_enum step) h = apply_create_enum-Unchanged s h step
    apply_step-Unchanged (update_enum step) h = apply_update_enum-Unchanged s h step
    apply_step-Unchanged (delete_enum step) h = apply_delete_enum-Unchanged s h step
    apply_step-Unchanged (create_type_alias step) h = apply_create_type_alias-Unchanged s h step
    apply_step-Unchanged (update_type_alias step) h = apply_update_type_alias-Unchanged s h step
    apply_step-Unchanged (delete_type_alias step) h = apply_delete_type_alias-Unchanged s h step
    apply_step-Unchanged (create_source step) h = apply_create_source-Unchanged s h step
    apply_step-Unchanged (delete_source step) h = apply_delete_source-Unchanged s h step
    apply_step-Unchanged (create_directive step) h =
        Unchanged-ok_or other s (find_directives_mut s step.location.path) _ _
          (Framed-directives other s step.location.path h)
          (λ r k.
            Unchanged-parsed other s (path_arguments parse (Location.arguments step.location.path))
              _ (λ args. k _))
    apply_step-Unchanged (delete_directive step) h =
        Unchanged-ok_or other s (find_directives_mut s step.location.path) _ _
          (Framed-directives other s step.location.path h) (λ r k. k _)
    apply_step-Unchanged (create_argument step) h =
        Unchanged-unwrap other s (find_argument_container s step.location) _
          (Framed-container other s step.location h)
          (λ r k. Unchanged-parsed other s (to_ast_expression parse step.value) _ (λ value. k _))
    apply_step-Unchanged (update_argument step) h =
        Unchanged-unwrap other s (find_argument_container s step.location) _
          (Framed-container other s step.location h)
          (λ r k. Unchanged-parsed other s (update_arguments parse step r.value) _ (λ args. k _))
    apply_step-Unchanged (delete_argument step) h =
        Unchanged-unwrap other s (find_argument_container s step.location) _
          (Framed-container other s step.location h) (λ r k. k _)
