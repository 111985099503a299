-- ===== src/Differ/PushTypes.antt =====
-- The steps on type aliases, enums and enum values:
-- migration-engine/core/src/migration/datamodel_differ.rs. A function that pushes steps returns the
-- steps that it pushes, in their order.
use mathlib.Core.List.{flat_map}
use prisma_engines.Prelude.{String, Bool, List, [], ◌∷◌, ◌++◌, map, ◌==◌, if◌then◌else◌}
use prisma_engines.Ast.Node.{Field, EnumValue, Enum}
use prisma_engines.Steps
use prisma_engines.Steps.{
  MigrationStep, UpdateTypeAlias_is_any_option_set, UpdateEnum_is_any_option_set,
}
use prisma_engines.Steps.Location.{DirectivePath, from_ast_arity}
use prisma_engines.Differ.Pairs.{Pair}
use prisma_engines.Differ.Fields
use prisma_engines.Differ.EnumValues
use prisma_engines.Differ.Enums
use prisma_engines.Differ.Top
use prisma_engines.Differ.Top.{TopDiffer}
use prisma_engines.Differ.Push.{
  diff_value, push_created_directives, push_deleted_directives, push_updated_directives,
}

-- `if step.is_any_option_set() { steps.push(step) }`
abbrev pub push_if : Bool → MigrationStep → List MigrationStep
push_if set step = if set then step ∷ [] else []

-- Type aliases.
unfoldable pub push_created_type_alias : Field → List MigrationStep
push_created_type_alias alias =
    MigrationStep.create_type_alias (record {
      type_alias = alias.name.name;
      type = alias.field_type.name;
      arity = from_ast_arity alias.arity;
    })
    ∷ push_created_directives (DirectivePath.type_alias alias.name.name) alias.directives

unfoldable pub push_created_type_aliases : List Field → List MigrationStep
unfolding push_created_type_alias
push_created_type_aliases = flat_map push_created_type_alias

unfoldable pub push_deleted_type_aliases : List Field → List MigrationStep
push_deleted_type_aliases =
    map (λ alias. MigrationStep.delete_type_alias (record { type_alias = alias.name.name }))

unfoldable pub push_updated_type_alias : Pair Field → List MigrationStep
push_updated_type_alias alias =
    push_if (UpdateTypeAlias_is_any_option_set step) (MigrationStep.update_type_alias step)
    ++ (push_created_directives directive_path (Fields.created_directives alias)
        ++ (push_updated_directives directive_path (Fields.directive_pairs alias)
            ++ push_deleted_directives directive_path (Fields.deleted_directives alias)))
  where
    directive_path : DirectivePath
    directive_path = DirectivePath.type_alias alias.previous.name.name

    step : Steps.UpdateTypeAlias
    step = record {
      type_alias = alias.previous.name.name;
      type = diff_value ◌==◌ alias.previous.field_type.name alias.next.field_type.name;
    }

unfoldable pub push_updated_type_aliases : List (Pair Field) → List MigrationStep
unfolding push_updated_type_alias
push_updated_type_aliases = flat_map push_updated_type_alias

unfoldable pub push_type_aliases : TopDiffer → List MigrationStep
push_type_aliases differ =
    push_created_type_aliases (Top.created_type_aliases differ)
    ++ (push_deleted_type_aliases (Top.deleted_type_aliases differ)
        ++ push_updated_type_aliases (Top.type_alias_pairs differ))

-- Enums.
unfoldable pub push_created_enum : Enum → List MigrationStep
push_created_enum enum =
    MigrationStep.create_enum (record {
      enum = enum.name.name;
      values = map (λ (value : EnumValue). value.name.name) enum.values;
    })
    ∷ (push_created_directives (DirectivePath.enum enum.name.name) enum.directives
        ++ flat_map
            (λ (value : EnumValue).
              push_created_directives (DirectivePath.enum_value enum.name.name value.name.name)
                value.directives)
            enum.values)

unfoldable pub push_created_enums : List Enum → List MigrationStep
unfolding push_created_enum
push_created_enums = flat_map push_created_enum

unfoldable pub push_deleted_enums : List Enum → List MigrationStep
push_deleted_enums = map (λ enum. MigrationStep.delete_enum (record { enum = enum.name.name }))

unfoldable pub push_updated_enum_value : String → Pair EnumValue → List MigrationStep
push_updated_enum_value enum_name value =
    push_created_directives path (EnumValues.created_directives value)
    ++ (push_updated_directives path (EnumValues.directive_pairs value)
        ++ push_deleted_directives path (EnumValues.deleted_directives value))
  where
    path : DirectivePath
    path = DirectivePath.enum_value enum_name value.next.name.name

-- The directives of created values come before the step that creates the values.
unfoldable pub push_updated_enum : Pair Enum → List MigrationStep
unfolding push_updated_enum_value
push_updated_enum enum =
    flat_map
      (λ (created_value : EnumValue).
        push_created_directives
          (DirectivePath.enum_value enum.next.name.name created_value.name.name)
          created_value.directives)
      (Enums.created_values enum)
    ++ (flat_map (push_updated_enum_value enum.next.name.name) (Enums.value_pairs enum)
        ++ (push_if (UpdateEnum_is_any_option_set update_enum_step)
              (MigrationStep.update_enum update_enum_step)
            ++ (push_created_directives directive_path (Enums.created_directives enum)
                ++ (push_updated_directives directive_path (Enums.directive_pairs enum)
                    ++ push_deleted_directives directive_path (Enums.deleted_directives enum)))))
  where
    update_enum_step : Steps.UpdateEnum
    update_enum_step = record {
      enum = enum.previous.name.name;
      new_name = diff_value ◌==◌ enum.previous.name.name enum.next.name.name;
      created_values = map (λ (value : EnumValue). value.name.name) (Enums.created_values enum);
      deleted_values = map (λ (value : EnumValue). value.name.name) (Enums.deleted_values enum);
    }

    directive_path : DirectivePath
    directive_path = DirectivePath.enum enum.previous.name.name

unfoldable pub push_updated_enums : List (Pair Enum) → List MigrationStep
unfolding push_updated_enum
push_updated_enums = flat_map push_updated_enum

unfoldable pub push_enums : TopDiffer → List MigrationStep
push_enums differ =
    push_created_enums (Top.created_enums differ)
    ++ (push_deleted_enums (Top.deleted_enums differ) ++ push_updated_enums (Top.enum_pairs differ))
