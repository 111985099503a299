-- ===== src/Roundtrip/Settled.antt =====
-- A schema that was built by steps beside the schema that the steps were inferred for: the differ of
-- migration-engine/core/src/migration/datamodel_differ.rs after the calculator.
use mathlib.Core.List.{filter_map, filter_map-append}
use prisma_engines.Prelude.{
  String, ◌≡◌, refl, ap, ◌∙◌, subst, sym, Option, [], ◌++◌, map, append-nil, All-map, Pairwise,
  Pairwise-map, ok, ◌>>=◌, All-zip,
}
use prisma_engines.Ast.Expression.{Expression}
use prisma_engines.Ast.Node.{Top, as_model, as_enum, as_source, as_type_alias}
use prisma_engines.Ast.Schema.{SchemaAst, empty}
use prisma_engines.Calculator.Apply.{apply}
use prisma_engines.Differ.Diff.{infer}
use prisma_engines.Differ.Idle.{infer_alike}
use prisma_engines.Differ.Alike.{FieldAlike, EnumAlike, SourceAlike, ModelAlike, Alike}
use prisma_engines.Differ.Top.{walk_type_aliases, walk_enums, walk_sources, walk_models}
use prisma_engines.WellNamed.{WellNamed}
use prisma_engines.Roundtrip.Rebuilt.{
  EachArgument, SchemaReadable, PrintsBack, rebuilt_field, rebuilt_enum, rebuilt_source,
  rebuilt_model, rebuilt,
}
use prisma_engines.Roundtrip.Whole.{apply-infer-empty}
use prisma_engines.Roundtrip.RebuiltAlike.{
  filter_map-some, filter_map-none, field_alike, enum_alike, source_alike, model_alike,
}

module _ (parse : String → Option Expression) where
  -- The entries of each kind of a rebuilt schema.
  module _ (s : SchemaAst) where
    walk_rebuilt :
        {A : Type 0} (view : Top → Option A)
        → filter_map view (rebuilt parse s).tops
          ≡ filter_map view (map (λ f. Top.type (rebuilt_field parse f)) (walk_type_aliases s))
            ++ (filter_map view (map (λ e. Top.enum (rebuilt_enum parse e)) (walk_enums s))
                ++ (filter_map view
                      (map (λ c. Top.source (rebuilt_source parse c)) (walk_sources s))
                    ++ filter_map view
                        (map (λ m. Top.model (rebuilt_model parse m)) (walk_models s))))
    walk_rebuilt view = simp (filter_map-append)

    pub aliases_rebuilt :
        walk_type_aliases (rebuilt parse s) ≡ map (rebuilt_field parse) (walk_type_aliases s)
    unfolding walk_type_aliases as_type_alias
    aliases_rebuilt =
        walk_rebuilt as_type_alias
        ∙ rw
            (
              filter_map-some as_type_alias (λ f. Top.type (rebuilt_field parse f))
                  (rebuilt_field parse) (walk_type_aliases s) (λ f. refl),
              filter_map-none as_type_alias (λ e. Top.enum (rebuilt_enum parse e)) (walk_enums s)
                  (λ e. refl),
              filter_map-none as_type_alias (λ c. Top.source (rebuilt_source parse c))
                  (walk_sources s) (λ c. refl),
              filter_map-none as_type_alias (λ m. Top.model (rebuilt_model parse m)) (walk_models s)
                  (λ m. refl),
            )
            (append-nil _)

    pub enums_rebuilt : walk_enums (rebuilt parse s) ≡ map (rebuilt_enum parse) (walk_enums s)
    unfolding walk_enums as_enum
    enums_rebuilt =
        walk_rebuilt as_enum
        ∙ rw
            (
              filter_map-none as_enum (λ f. Top.type (rebuilt_field parse f)) (walk_type_aliases s)
                  (λ f. refl),
              filter_map-some as_enum (λ e. Top.enum (rebuilt_enum parse e)) (rebuilt_enum parse)
                  (walk_enums s) (λ e. refl),
              filter_map-none as_enum (λ c. Top.source (rebuilt_source parse c)) (walk_sources s)
                  (λ c. refl),
              filter_map-none as_enum (λ m. Top.model (rebuilt_model parse m)) (walk_models s)
                  (λ m. refl),
            )
            (append-nil _)

    pub sources_rebuilt :
        walk_sources (rebuilt parse s) ≡ map (rebuilt_source parse) (walk_sources s)
    unfolding walk_sources as_source
    sources_rebuilt =
        walk_rebuilt as_source
        ∙ rw
            (
              filter_map-none as_source (λ f. Top.type (rebuilt_field parse f))
                  (walk_type_aliases s) (λ f. refl),
              filter_map-none as_source (λ e. Top.enum (rebuilt_enum parse e)) (walk_enums s)
                  (λ e. refl),
              filter_map-some as_source (λ c. Top.source (rebuilt_source parse c))
                  (rebuilt_source parse) (walk_sources s) (λ c. refl),
              filter_map-none as_source (λ m. Top.model (rebuilt_model parse m)) (walk_models s)
                  (λ m. refl),
            )
            (append-nil _)

    pub models_rebuilt : walk_models (rebuilt parse s) ≡ map (rebuilt_model parse) (walk_models s)
    unfolding walk_models as_model
    models_rebuilt =
        walk_rebuilt as_model
        ∙ rw (
          filter_map-none as_model (λ f. Top.type (rebuilt_field parse f)) (walk_type_aliases s)
              (λ f. refl),
          filter_map-none as_model (λ e. Top.enum (rebuilt_enum parse e)) (walk_enums s)
              (λ e. refl),
          filter_map-none as_model (λ c. Top.source (rebuilt_source parse c)) (walk_sources s)
              (λ c. refl),
          filter_map-some as_model (λ m. Top.model (rebuilt_model parse m)) (rebuilt_model parse)
              (walk_models s) (λ m. refl),
        )

    rebuilt-Alike : EachArgument (PrintsBack parse) s → Alike (rebuilt parse s) s
    rebuilt-Alike h = record {
      aliases =
          subst (λ fs. Pairwise FieldAlike fs (walk_type_aliases s)) (sym aliases_rebuilt)
            (Pairwise-map FieldAlike (rebuilt_field parse) (walk_type_aliases s)
              (All-map (walk_type_aliases s) (field_alike parse) h.aliases));
      enums =
          subst (λ es. Pairwise EnumAlike es (walk_enums s)) (sym enums_rebuilt)
            (Pairwise-map EnumAlike (rebuilt_enum parse) (walk_enums s) (
              All-map (walk_enums s) (λ e k. enum_alike parse e k.0 k.1)
                (All-zip _ _ (walk_enums s) h.enums h.values)));
      sources =
          subst (λ cs. Pairwise SourceAlike cs (walk_sources s)) (sym sources_rebuilt)
            (Pairwise-map SourceAlike (rebuilt_source parse) (walk_sources s)
              (All-map (walk_sources s) (source_alike parse) h.sources));
      models =
          subst (λ ms. Pairwise ModelAlike ms (walk_models s)) (sym models_rebuilt)
            (Pairwise-map ModelAlike (rebuilt_model parse) (walk_models s) (
              All-map (walk_models s) (λ m k. model_alike parse m k.0 k.1.0 k.1.1)
                (All-zip _ _ (walk_models s) h.fields
                  (All-zip _ _ (walk_models s) h.regular h.repeated))));
    }

    -- If the schema is `WellNamed`, the parser reads the printed values of its arguments, and what it
    -- reads is printed to the same text again, then the steps that are inferred from the empty schema
    -- to it succeed, and from their result to the schema no step is inferred any more.
    pub infer-apply-infer :
        WellNamed s
        → SchemaReadable parse s
        → EachArgument (PrintsBack parse) s
        → (apply parse empty (infer empty s) >>= λ t. ok (infer t s)) ≡ ok []
    infer-apply-infer w r h =
        rw (apply-infer-empty parse s w r)
          (ap ok (infer_alike (rebuilt parse s) s (rebuilt-Alike h) w))
