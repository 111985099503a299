-- ===== src/Differ/Renames.antt =====
-- Names in the steps between two schemas: the differ recognises an entry by its name, in
-- migration-engine/core/src/migration/datamodel_differ.rs.
use prisma_engines.Prelude.{String, ◌≡◌, refl, ap, true, false, List, is_some, All-map}
use prisma_engines.Ast.Node.{Field, Enum, Model}
use prisma_engines.Ast.Schema.{SchemaAst}
use prisma_engines.Differ.Pairs.{Pair}
use prisma_engines.Differ.Fields
use prisma_engines.Differ.EnumValues
use prisma_engines.Differ.Enums
use prisma_engines.Differ.Models
use prisma_engines.Differ.Source
use prisma_engines.Differ.Top
use prisma_engines.Differ.Push.{push_created_directives_with_arguments}
use prisma_engines.Differ.PushTypes.{
  push_created_type_alias, push_created_type_aliases, push_deleted_type_aliases,
  push_updated_type_alias, push_updated_type_aliases, push_type_aliases, push_created_enum,
  push_created_enums, push_deleted_enums, push_updated_enum_value, push_updated_enum,
  push_updated_enums, push_enums,
}
use prisma_engines.Differ.PushModels.{
  push_created_source, push_created_sources, push_deleted_sources, push_updated_source,
  push_updated_sources, push_datasources, push_created_field, push_created_fields,
  push_deleted_fields, push_updated_field, push_updated_fields, push_created_model,
  push_created_models, push_deleted_models, push_updated_model, push_updated_models, push_models,
}
use prisma_engines.Differ.Diff.{diff, infer}
use prisma_engines.Differ.RenameParts.{
  All-flat_map, All-map_steps, KeepsNames, both, created_arguments_keep, created_keep,
  created_with_keep, deleted_arguments_keep, deleted_keep, deleted_with_keep, diff_value_same, each,
  pairs_match, push_if-KeepsNames, renames, three_keep, updated_arguments_keep, updated_keep,
}

type_aliases_keep : (d : Pair SchemaAst) → KeepsNames (push_type_aliases d)
unfolding push_type_aliases push_created_type_aliases push_created_type_alias
    push_deleted_type_aliases push_updated_type_aliases push_updated_type_alias
type_aliases_keep d =
    both _ _ (each _ (λ f. (refl, created_keep _ f.directives)) (Top.created_type_aliases d)) (
      both _ _ (All-map_steps _ _ (Top.deleted_type_aliases d) (λ f. refl)) (
        each _
          (λ p. both _ _ (push_if-KeepsNames _ _ refl) (
            three_keep _ (Fields.created_directives p) (Fields.directive_pairs p)
              (Fields.deleted_directives p)))
          (Top.type_alias_pairs d)))

updated_enum_keep :
    (p : Pair Enum) → Top.enums_match p.previous p.next ≡ true → KeepsNames (push_updated_enum p)
unfolding push_updated_enum push_updated_enum_value Top.enums_match
updated_enum_keep p h =
    both _ _ (each _ (λ v. created_keep _ v.directives) (Enums.created_values p)) (
      both _ _
        (each _
          (λ q.
            three_keep _ (EnumValues.created_directives q) (EnumValues.directive_pairs q)
              (EnumValues.deleted_directives q))
          (Enums.value_pairs p))
        (both _ _
          (push_if-KeepsNames _ _
            (ap is_some (diff_value_same p.previous.name.name p.next.name.name h)))
          (three_keep _ (Enums.created_directives p) (Enums.directive_pairs p)
            (Enums.deleted_directives p))))

enums_keep : (d : Pair SchemaAst) → KeepsNames (push_enums d)
unfolding push_enums push_created_enums push_created_enum push_deleted_enums push_updated_enums
    Top.enum_pairs
enums_keep d =
    both _ _
      (each _
        (λ e. (
          refl,
          both _ _ (created_keep _ e.directives)
              (each _ (λ v. created_keep _ v.directives) e.values),
        ))
        (Top.created_enums d))
      (both _ _ (All-map_steps _ _ (Top.deleted_enums d) (λ e. refl)) (
        All-flat_map (λ step. renames step ≡ false) push_updated_enum (Top.enum_pairs d)
          (All-map (Top.enum_pairs d) updated_enum_keep
            (pairs_match Top.enums_match (Top.walk_enums d.previous) (Top.walk_enums d.next)))))

datasources_keep : (d : Pair SchemaAst) → KeepsNames (push_datasources d)
unfolding push_datasources push_created_sources push_created_source push_deleted_sources
    push_updated_sources push_updated_source
datasources_keep d =
    both _ _
      (each _ (λ c. (refl, created_arguments_keep _ c.properties)) (Top.created_datasources d))
      (both _ _ (All-map_steps _ _ (Top.deleted_datasources d) (λ c. refl)) (
        each _
          (λ p. both _ _ (created_arguments_keep _ (Source.created_arguments p)) (
            both _ _ (deleted_arguments_keep _ (Source.deleted_arguments p))
              (updated_arguments_keep _ (Source.argument_pairs p))))
          (Top.updated_datasources d)))

created_fields_keep : (model : String) (fs : List Field) → KeepsNames (push_created_fields model fs)
unfolding push_created_fields push_created_field
created_fields_keep model = each _ (λ f. (refl, created_keep _ f.directives))

updated_field_keep :
    (model : String) (p : Pair Field)
    → Models.fields_match p.previous p.next ≡ true
    → KeepsNames (push_updated_field model p)
unfolding push_updated_field Models.fields_match
updated_field_keep model p h =
    both _ _
      (push_if-KeepsNames _ _
        (ap is_some (diff_value_same p.previous.name.name p.next.name.name h)))
      (three_keep _ (Fields.created_directives p) (Fields.directive_pairs p)
        (Fields.deleted_directives p))

updated_model_keep : (p : Pair Model) → KeepsNames (push_updated_model p)
unfolding push_updated_model push_deleted_fields push_updated_fields Models.field_pairs
updated_model_keep p = both _ _ (created_fields_keep _ (Models.created_fields p)) (
    both _ _ (All-map_steps _ _ (Models.deleted_fields p) (λ f. refl)) (
      both _ _
        (All-flat_map (λ step. renames step ≡ false) (push_updated_field p.previous.name.name)
          (Models.field_pairs p)
          (All-map (Models.field_pairs p) (updated_field_keep p.previous.name.name)
            (pairs_match Models.fields_match p.previous.fields p.next.fields)))
        (both _ _ (created_keep _ (Models.created_regular_directives p)) (
          both _ _ (updated_keep _ (Models.regular_directive_pairs p)) (
            both _ _ (deleted_keep _ (Models.deleted_regular_directives p)) (
              both _ _ (created_with_keep _ (Models.created_repeated_directives p))
                (deleted_with_keep _ (Models.deleted_repeated_directives p))))))))

models_keep : (d : Pair SchemaAst) → KeepsNames (push_models d)
unfolding push_models push_created_models push_created_model push_created_directives_with_arguments
    push_deleted_models push_updated_models
models_keep d =
    both _ _
      (each _
        (λ m. (
          refl,
          both _ _ (created_fields_keep _ m.fields)
              (both _ _ (created_keep _ _) (created_with_keep _ _)),
        ))
        (Top.created_models d))
      (both _ _ (All-map_steps _ _ (Top.deleted_models d) (λ m. refl))
        (each _ updated_model_keep (Top.model_pairs d)))

-- No step that is inferred between two schemas, whatever they are, gives a model, an enum or a field
-- a new name.
pub infer-KeepsNames : (previous next : SchemaAst) → KeepsNames (infer previous next)
unfolding infer diff
infer-KeepsNames previous next =
    both _ _ (type_aliases_keep d)
      (both _ _ (enums_keep d) (both _ _ (datasources_keep d) (models_keep d)))
  where
    d : Pair SchemaAst
    d = record { previous = previous; next = next }
