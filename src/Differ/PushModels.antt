-- ===== src/Differ/PushModels.antt =====
-- The steps on sources, fields and models: migration-engine/core/src/migration/datamodel_differ.rs.
-- A function that pushes steps returns the steps that it pushes, in their order.
use mathlib.Core.Option
use mathlib.Core.List.{flat_map}
use prisma_engines.Prelude.{String, Bool, true, false, none, List, ◌∷◌, ◌++◌, map, ◌==◌, filter}
use prisma_engines.Ast.Node
use prisma_engines.Ast.Node.{Argument, Field, Model, SourceConfig}
use prisma_engines.Steps
use prisma_engines.Steps.{MigrationStep, UpdateField_is_any_option_set}
use prisma_engines.Steps.Location.{DirectivePath, ArgumentLocation, from_ast_arity}
use prisma_engines.Differ.Pairs.{Pair}
use prisma_engines.Differ.Fields
use prisma_engines.Differ.Models
use prisma_engines.Differ.Models.{directive_is_regular, directive_is_repeated}
use prisma_engines.Differ.Source
use prisma_engines.Differ.Top
use prisma_engines.Differ.Top.{TopDiffer}
use prisma_engines.Differ.PushTypes.{push_if}
use prisma_engines.Differ.Push.{
  diff_value, push_created_argument, push_updated_argument, push_deleted_argument,
  push_created_directives, push_created_directives_with_arguments, push_deleted_directives,
  push_updated_directives, push_created_directive_with_arguments,
  push_deleted_directive_with_arguments,
}

-- The derived `==` of `ast::FieldArity`.
unfoldable pub arity_eq : Node.FieldArity → Node.FieldArity → Bool
arity_eq Node.FieldArity.required Node.FieldArity.required = true
arity_eq Node.FieldArity.optional Node.FieldArity.optional = true
arity_eq Node.FieldArity.list Node.FieldArity.list = true
arity_eq _ _ = false

-- Sources.
abbrev source_location : SourceConfig → ArgumentLocation
source_location source = ArgumentLocation.source (record { source = source.name.name })

unfoldable pub push_updated_source : Pair SourceConfig → List MigrationStep
push_updated_source source =
    flat_map (push_created_argument location) (Source.created_arguments source)
    ++ (flat_map (λ (argument : Argument). push_deleted_argument location argument.name.name)
          (Source.deleted_arguments source)
        ++ flat_map (push_updated_argument location) (Source.argument_pairs source))
  where
    location : ArgumentLocation
    location = source_location source.previous

unfoldable pub push_updated_sources : List (Pair SourceConfig) → List MigrationStep
unfolding push_updated_source
push_updated_sources = flat_map push_updated_source

unfoldable pub push_created_source : SourceConfig → List MigrationStep
push_created_source source =
    MigrationStep.create_source (record { source = source.name.name })
    ∷ flat_map (push_created_argument (source_location source)) source.properties

unfoldable pub push_created_sources : List SourceConfig → List MigrationStep
unfolding push_created_source
push_created_sources = flat_map push_created_source

unfoldable pub push_deleted_sources : List SourceConfig → List MigrationStep
push_deleted_sources =
    map (λ source. MigrationStep.delete_source (record { source = source.name.name }))

unfoldable pub push_datasources : TopDiffer → List MigrationStep
push_datasources differ =
    push_created_sources (Top.created_datasources differ)
    ++ (push_deleted_sources (Top.deleted_datasources differ)
        ++ push_updated_sources (Top.updated_datasources differ))

-- Fields.
unfoldable pub push_created_field : String → Field → List MigrationStep
push_created_field model_name field =
    MigrationStep.create_field (record {
      arity = from_ast_arity field.arity;
      field = field.name.name;
      tpe = field.field_type.name;
      model = model_name;
    })
    ∷ push_created_directives (DirectivePath.field model_name field.name.name) field.directives

unfoldable pub push_created_fields : String → List Field → List MigrationStep
unfolding push_created_field
push_created_fields model_name = flat_map (push_created_field model_name)

unfoldable pub push_deleted_fields : String → List Field → List MigrationStep
push_deleted_fields model_name =
    map
      (λ field. MigrationStep.delete_field (record { model = model_name; field = field.name.name }))

unfoldable pub push_updated_field : String → Pair Field → List MigrationStep
push_updated_field model_name field =
    push_if (UpdateField_is_any_option_set update_field_step)
      (MigrationStep.update_field update_field_step)
    ++ (push_created_directives directive_path (Fields.created_directives field)
        ++ (push_updated_directives directive_path (Fields.directive_pairs field)
            ++ push_deleted_directives directive_path (Fields.deleted_directives field)))
  where
    update_field_step : Steps.UpdateField
    update_field_step = record {
      arity = Option.map from_ast_arity (diff_value arity_eq field.previous.arity field.next.arity);
      new_name = diff_value ◌==◌ field.previous.name.name field.next.name.name;
      model = model_name;
      field = field.previous.name.name;
      tpe = diff_value ◌==◌ field.previous.field_type.name field.next.field_type.name;
    }

    directive_path : DirectivePath
    directive_path = DirectivePath.field model_name field.previous.name.name

unfoldable pub push_updated_fields : String → List (Pair Field) → List MigrationStep
unfolding push_updated_field
push_updated_fields model_name = flat_map (push_updated_field model_name)

-- Models.
abbrev model_path : Model → DirectivePath
model_path model = DirectivePath.model model.name.name none

unfoldable pub push_created_model : Model → List MigrationStep
push_created_model model =
    MigrationStep.create_model (record { model = model.name.name })
    ∷ (push_created_fields model.name.name model.fields
        ++ (push_created_directives (model_path model)
              (filter directive_is_regular model.directives)
            ++ push_created_directives_with_arguments (model_path model)
                (filter directive_is_repeated model.directives)))

unfoldable pub push_created_models : List Model → List MigrationStep
unfolding push_created_model
push_created_models = flat_map push_created_model

unfoldable pub push_deleted_models : List Model → List MigrationStep
push_deleted_models = map (λ model. MigrationStep.delete_model (record { model = model.name.name }))

unfoldable pub push_updated_model : Pair Model → List MigrationStep
push_updated_model model =
    push_created_fields model_name (Models.created_fields model)
    ++ (push_deleted_fields model_name (Models.deleted_fields model)
        ++ (push_updated_fields model_name (Models.field_pairs model)
            ++ (push_created_directives directive_path (Models.created_regular_directives model)
                ++ (push_updated_directives directive_path (Models.regular_directive_pairs model)
                    ++ (push_deleted_directives directive_path
                          (Models.deleted_regular_directives model)
                        ++ (flat_map (push_created_directive_with_arguments directive_path)
                              (Models.created_repeated_directives model)
                            ++ flat_map (push_deleted_directive_with_arguments directive_path)
                                (Models.deleted_repeated_directives model)))))))
  where
    model_name : String
    model_name = model.previous.name.name

    directive_path : DirectivePath
    directive_path = model_path model.previous

unfoldable pub push_updated_models : List (Pair Model) → List MigrationStep
unfolding push_updated_model
push_updated_models = flat_map push_updated_model

unfoldable pub push_models : TopDiffer → List MigrationStep
push_models differ =
    push_created_models (Top.created_models differ)
    ++ (push_deleted_models (Top.deleted_models differ)
        ++ push_updated_models (Top.model_pairs differ))
