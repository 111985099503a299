-- ===== src/Roundtrip/Whole.antt =====
-- A whole schema, rebuilt from the empty one: `infer` and then `apply`.
use mathlib.Core.List.{flat_map, filter_map}
use prisma_engines.Prelude.{
  String, ◌≡◌, refl, ap, ◌∙◌, Bool, Option, none, List, [], ◌∷◌, ◌++◌, map, append-nil,
  append_assoc, ok, All, All_of, All-append, All-zip, All-map, filter_self, filter, find,
}
use prisma_engines.Ast.Expression.{Expression}
use prisma_engines.Ast.Node.{Top, Field, EnumValue, as_model, as_enum, as_source}
use prisma_engines.Ast.Schema.{SchemaAst, empty}
use prisma_engines.Calculator.Apply.{apply}
use prisma_engines.Differ.Pairs.{created, deleted, pairs}
use prisma_engines.Differ.Top
use prisma_engines.Differ.Top.{walk_type_aliases, walk_enums, walk_sources, walk_models}
use prisma_engines.Differ.PushTypes.{
  push_type_aliases, push_enums, push_created_type_aliases, push_deleted_type_aliases,
  push_updated_type_aliases, push_created_enums, push_deleted_enums, push_updated_enums,
}
use prisma_engines.Differ.PushModels.{
  push_datasources, push_models, push_created_sources, push_deleted_sources, push_updated_sources,
  push_created_models, push_deleted_models, push_updated_models,
}
use prisma_engines.Differ.Models.{regular_directives, repeated_directives}
use prisma_engines.Differ.Diff.{diff, infer}
use prisma_engines.WellNamed.{WellNamed, DirectivesWellNamed, EnumWellNamed, ModelWellNamed}
use prisma_engines.Roundtrip.Rebuilt.{
  SchemaReadable, AllReadable, rebuilt, rebuilt_field, rebuilt_enum, rebuilt_source, rebuilt_model,
}
use prisma_engines.Roundtrip.Grow.{apply_both}
use prisma_engines.Roundtrip.Types.{create_aliases}
use prisma_engines.Roundtrip.Sources.{create_sources}
use prisma_engines.Roundtrip.Enums.{create_enums, EnumFits}
use prisma_engines.Roundtrip.Models.{create_models, ModelFits}

module _ {A : Type 0} (matches : A → A → Bool) (xs : List A) where
  created_from_none : created matches [] xs ≡ xs
  unfolding created find
  created_from_none = filter_self _ xs (All_of xs (λ x. refl))

-- The steps from the empty schema are those that create each entry.
steps_from_empty :
    (s : SchemaAst)
    → infer empty s
      ≡ push_created_type_aliases (walk_type_aliases s)
        ++ (push_created_enums (walk_enums s)
            ++ (push_created_sources (walk_sources s) ++ push_created_models (walk_models s)))
unfolding infer diff push_type_aliases push_enums push_datasources push_models
    Top.created_type_aliases Top.deleted_type_aliases Top.type_alias_pairs Top.created_enums
    Top.deleted_enums Top.enum_pairs Top.created_datasources Top.deleted_datasources
    Top.updated_datasources Top.created_models Top.deleted_models Top.model_pairs deleted pairs
    Top.walk_type_aliases Top.walk_enums Top.walk_sources Top.walk_models empty
    push_deleted_type_aliases push_updated_type_aliases push_deleted_enums push_updated_enums
    push_deleted_sources push_updated_sources push_deleted_models push_updated_models flat_map
    filter_map filter
steps_from_empty s =
    rw
      (
        created_from_none Top.type_aliases_match (walk_type_aliases s),
        created_from_none Top.enums_match (walk_enums s),
        created_from_none Top.sources_match (walk_sources s),
        created_from_none Top.models_match (walk_models s),
      )
      (simp append-nil)

All_map :
    {A B : Type 0} (P : B → Type 0) (g : A → B) (xs : List A)
    → ((a : A) → P (g a))
    → All P (map g xs)
All_map P g [] f = tt
All_map P g (x ∷ xs) f = (f x, All_map P g xs f)

module _ (parse : String → Option Expression) (s : SchemaAst) where
  abbrev type_tops : List Top
  type_tops = map (λ f. Top.type (rebuilt_field parse f)) (walk_type_aliases s)

  abbrev enum_tops : List Top
  enum_tops = map (λ e. Top.enum (rebuilt_enum parse e)) (walk_enums s)

  abbrev source_tops : List Top
  source_tops = map (λ c. Top.source (rebuilt_source parse c)) (walk_sources s)

  abbrev model_tops : List Top
  model_tops = map (λ m. Top.model (rebuilt_model parse m)) (walk_models s)

  no_enums : All (λ t. as_enum t ≡ none) type_tops
  unfolding as_enum
  no_enums = All_map (λ t. as_enum t ≡ none) _ (walk_type_aliases s) (λ f. refl)

  no_sources : All (λ t. as_source t ≡ none) (type_tops ++ enum_tops)
  unfolding as_source
  no_sources =
      All-append (λ t. as_source t ≡ none) type_tops enum_tops
        (All_map (λ t. as_source t ≡ none) _ (walk_type_aliases s) (λ f. refl))
        (All_map (λ t. as_source t ≡ none) _ (walk_enums s) (λ e. refl))

  no_models : All (λ t. as_model t ≡ none) ((type_tops ++ enum_tops) ++ source_tops)
  unfolding as_model
  no_models =
      All-append (λ t. as_model t ≡ none) (type_tops ++ enum_tops) source_tops
        (All-append (λ t. as_model t ≡ none) type_tops enum_tops
          (All_map (λ t. as_model t ≡ none) _ (walk_type_aliases s) (λ f. refl))
          (All_map (λ t. as_model t ≡ none) _ (walk_enums s) (λ e. refl)))
        (All_map (λ t. as_model t ≡ none) _ (walk_sources s) (λ c. refl))

  module _ (w : WellNamed s) (r : SchemaReadable parse s) where
    aliases_fit :
        All
          (λ (f : Field). DirectivesWellNamed f.directives × AllReadable parse f.directives)
          (walk_type_aliases s)
    aliases_fit =
        All-zip (λ f. DirectivesWellNamed f.directives) (λ f. AllReadable parse f.directives)
          (walk_type_aliases s) w.aliases.1 r.aliases

    enums_fit : All (EnumFits parse) (walk_enums s)
    enums_fit =
        All-map (walk_enums s) (λ e h. (h.0, h.1.0, h.1.1))
          (All-zip EnumWellNamed _ (walk_enums s) w.enums (
            All-zip (λ e. AllReadable parse e.directives)
              (λ e. All (λ (v : EnumValue). AllReadable parse v.directives) e.values) (walk_enums s)
              r.enums r.values))

    models_fit : All (ModelFits parse) (walk_models s)
    models_fit =
        All-map (walk_models s) (λ m h. (h.0, h.1.0, h.1.1.0, h.1.1.1))
          (All-zip ModelWellNamed _ (walk_models s) w.models (
            All-zip (λ m. All (λ (f : Field). AllReadable parse f.directives) m.fields) _
              (walk_models s) r.fields
              (All-zip (λ m. AllReadable parse (regular_directives m))
                (λ m. AllReadable parse (repeated_directives m)) (walk_models s) r.regular
                r.repeated)))

    -- The steps that are inferred from the empty schema to a schema succeed, and build `rebuilt` of
    -- that schema: its type aliases, enums, sources and models in this order, with their names,
    -- types, arities, values, directives and arguments, each argument's value printed and parsed
    -- again, a model's regular directives before its repeated ones. This holds if the schema is
    -- `WellNamed` and the parser reads the printed values of its arguments.
    pub apply-infer-empty : apply parse empty (infer empty s) ≡ ok (rebuilt parse s)
    unfolding empty
    apply-infer-empty = rw (steps_from_empty s) (
        apply_both parse (record { tops = [] }) (record { tops = type_tops }) _ _ _
          (create_aliases parse [] (walk_type_aliases s) tt w.aliases.0 aliases_fit)
          (apply_both parse _ (record { tops = type_tops ++ enum_tops }) _ _ _
            (create_enums parse type_tops (walk_enums s) no_enums w.enum_names enums_fit)
            (apply_both parse _ (record { tops = (type_tops ++ enum_tops) ++ source_tops }) _ _ _
              (create_sources parse (type_tops ++ enum_tops) (walk_sources s) no_sources
                w.source_names r.sources)
              (create_models parse ((type_tops ++ enum_tops) ++ source_tops) (walk_models s)
                  no_models w.model_names models_fit
                ∙ ap (λ tops. ok (record { tops = tops }))
                    (append_assoc (type_tops ++ enum_tops) source_tops model_tops
                      ∙ append_assoc type_tops enum_tops (source_tops ++ model_tops))))))
