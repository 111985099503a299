-- ===== src/Differ/Idle.antt =====
-- The steps between schemas that steps describe alike.
use mathlib.Core.List.{flat_map}
use prisma_engines.Prelude.{◌≡◌, refl, eq-sym, []}
use prisma_engines.Ast.Schema.{SchemaAst}
use prisma_engines.Differ.Alike.{Alike, FieldAlike, EnumAlike, SourceAlike, ModelAlike}
use prisma_engines.Differ.Top
use prisma_engines.Differ.PushTypes.{
  push_updated_type_alias, push_updated_enum, push_updated_enums, push_updated_type_aliases,
  push_type_aliases, push_enums, push_created_type_aliases, push_deleted_type_aliases,
  push_created_enums, push_deleted_enums,
}
use prisma_engines.Differ.PushModels.{
  push_updated_source, push_updated_model, push_datasources, push_created_sources,
  push_deleted_sources, push_updated_sources, push_models, push_created_models, push_deleted_models,
  push_updated_models,
}
use prisma_engines.Differ.Diff.{diff, infer}
use prisma_engines.Differ.AlikeParts.{pair, push_updated_type_alias-alike}
use prisma_engines.WellNamed.{WellNamed, field_name, enum_name, model_name, source_name}
use prisma_engines.Differ.AlikeEntries.{
  none_created, none_deleted, none_updated, push_updated_enum-alike, push_updated_source-alike,
  push_updated_model-alike,
}
use prisma_engines.Differ.Top.{walk_type_aliases, walk_enums, walk_sources, walk_models}

module _ (s t : SchemaAst) (h : Alike s t) (w : WellNamed t) where
  push_type_aliases-alike : push_type_aliases (pair s t) ≡ []
  unfolding push_type_aliases push_created_type_aliases push_deleted_type_aliases
      push_updated_type_aliases Top.created_type_aliases Top.deleted_type_aliases
      Top.type_alias_pairs Top.type_aliases_match flat_map
  push_type_aliases-alike = rw (
    none_created field_name FieldAlike (λ a b r. r.same_name) Top.type_aliases_match (λ a b. refl)
        (Top.walk_type_aliases s) (Top.walk_type_aliases t) h.aliases,
    none_deleted field_name FieldAlike (λ a b r. r.same_name) Top.type_aliases_match (λ a b. refl)
        (Top.walk_type_aliases s) (Top.walk_type_aliases t) h.aliases,
    none_updated field_name FieldAlike (λ a b r. r.same_name) Top.type_aliases_match (λ a b. refl)
        (Top.walk_type_aliases s) (Top.walk_type_aliases t) h.aliases push_updated_type_alias
        push_updated_type_alias-alike w.aliases.0 w.aliases.1,
  )

  push_enums-alike : push_enums (pair s t) ≡ []
  unfolding push_enums push_created_enums push_deleted_enums push_updated_enums Top.created_enums
      Top.deleted_enums Top.enum_pairs Top.enums_match flat_map
  push_enums-alike = rw (
    none_created enum_name EnumAlike (λ a b r. r.same_name) Top.enums_match (λ a b. refl)
        (Top.walk_enums s) (Top.walk_enums t) h.enums,
    none_deleted enum_name EnumAlike (λ a b r. r.same_name) Top.enums_match (λ a b. refl)
        (Top.walk_enums s) (Top.walk_enums t) h.enums,
    none_updated enum_name EnumAlike (λ a b r. r.same_name) Top.enums_match (λ a b. refl)
        (Top.walk_enums s) (Top.walk_enums t) h.enums push_updated_enum push_updated_enum-alike
        w.enum_names w.enums,
  )

  push_datasources-alike : push_datasources (pair s t) ≡ []
  unfolding push_datasources push_created_sources push_deleted_sources push_updated_sources
      Top.created_datasources Top.deleted_datasources Top.updated_datasources Top.sources_match
      flat_map
  push_datasources-alike = rw (
    none_created source_name SourceAlike (λ a b r. r.same_name) Top.sources_match (λ a b. refl)
        (Top.walk_sources s) (Top.walk_sources t) h.sources,
    none_deleted source_name SourceAlike (λ a b r. r.same_name)
        (λ next previous. Top.sources_match previous next) (λ a b. eq-sym b.name.name a.name.name)
        (Top.walk_sources s) (Top.walk_sources t) h.sources,
    none_updated source_name SourceAlike (λ a b r. r.same_name) Top.sources_match (λ a b. refl)
        (Top.walk_sources s) (Top.walk_sources t) h.sources push_updated_source
        push_updated_source-alike w.source_names w.sources,
  )

  push_models-alike : push_models (pair s t) ≡ []
  unfolding push_models push_created_models push_deleted_models push_updated_models
      Top.created_models Top.deleted_models Top.model_pairs Top.models_match flat_map
  push_models-alike = rw (
    none_created model_name ModelAlike (λ a b r. r.same_name) Top.models_match (λ a b. refl)
        (Top.walk_models s) (Top.walk_models t) h.models,
    none_deleted model_name ModelAlike (λ a b r. r.same_name) Top.models_match (λ a b. refl)
        (Top.walk_models s) (Top.walk_models t) h.models,
    none_updated model_name ModelAlike (λ a b r. r.same_name) Top.models_match (λ a b. refl)
        (Top.walk_models s) (Top.walk_models t) h.models push_updated_model push_updated_model-alike
        w.model_names w.models,
  )

  -- From a schema to a `WellNamed` one that steps describe alike, no step is inferred: differences
  -- in spans, documentation, default values, comment marks, generators, the order of entries of
  -- different kinds and the spelling of values that print alike are no reason for a migration.
  pub infer_alike : infer s t ≡ []
  unfolding infer diff
  infer_alike =
      rw (push_type_aliases-alike, push_enums-alike, push_datasources-alike, push_models-alike)
