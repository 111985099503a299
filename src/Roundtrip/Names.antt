-- ===== src/Roundtrip/Names.antt =====
-- The names in a schema that was built by steps: the calculator of
-- migration-engine/core/src/migration/datamodel_calculator.rs after the differ.
use prisma_engines.Prelude.{
  String, ◌≡◌, refl, ap, ◌∙◌, sym, subst, false, Option, List, [], ◌∷◌, ◌==◌, map, All, All-map,
  Absent, Unique, Outcome, ok,
}
use prisma_engines.Ast.Expression.{Expression}
use prisma_engines.Ast.Node.{Directive, Field, EnumValue, Enum, Model, SourceConfig}
use prisma_engines.Ast.Schema.{SchemaAst, empty}
use prisma_engines.Calculator.Errors.{CalculatorError}
use prisma_engines.Calculator.Apply.{apply}
use prisma_engines.Differ.Diff.{infer}
use prisma_engines.Differ.Models.{regular_directives}
use prisma_engines.Differ.Top.{walk_type_aliases, walk_enums, walk_sources, walk_models}
use prisma_engines.WellNamed.{
  WellNamed, EnumWellNamed, ModelWellNamed, DirectivesWellNamed, FieldsWellNamed, argument_name,
  directive_name, field_name, value_name, enum_name, model_name, source_name,
}
use prisma_engines.Roundtrip.Rebuilt.{
  SchemaReadable, rebuilt_argument, rebuilt_directive, rebuilt_field, rebuilt_value, rebuilt_enum,
  rebuilt_source, rebuilt_model, rebuilt,
}
use prisma_engines.Roundtrip.RebuiltAlike.{All-mapped, regular_is}
use prisma_engines.Roundtrip.Settled.{
  aliases_rebuilt, enums_rebuilt, sources_rebuilt, models_rebuilt,
}
use prisma_engines.Roundtrip.Whole.{apply-infer-empty}

-- Where there is a schema, it is `WellNamed`.
abbrev OkWellNamed : Outcome CalculatorError SchemaAst → Type 0
OkWellNamed (ok u) = WellNamed u
OkWellNamed _ = Unit

-- A map that keeps names keeps them different.
Unique-map :
    {A : Type 0} (ident : A → String) (f : A → A) (xs : List A)
    → ((a : A) → ident (f a) ≡ ident a)
    → Unique ident xs
    → Unique ident (map f xs)
Unique-map ident f [] same u = tt
Unique-map ident f (x ∷ xs) same u = (
  subst (λ n. Absent ident n (map f xs)) (sym (same x))
      (All-mapped (λ b. (ident b == ident x) ≡ false) f xs
        (All-map xs (λ a e. ap (λ n. n == ident x) (same a) ∙ e) u.0)),
  Unique-map ident f xs same u.1,
)

module _ (parse : String → Option Expression) where
  directives_named :
      (ds : List Directive)
      → DirectivesWellNamed ds
      → DirectivesWellNamed (map (rebuilt_directive parse) ds)
  directives_named ds w = (
    Unique-map directive_name (rebuilt_directive parse) ds (λ d. refl) w.0,
    All-mapped (λ (d : Directive). Unique argument_name d.arguments) (rebuilt_directive parse) ds
        (All-map ds
          (λ d u. Unique-map argument_name (rebuilt_argument parse) d.arguments (λ a. refl) u) w.1),
  )

  fields_named :
      (fs : List Field) → FieldsWellNamed fs → FieldsWellNamed (map (rebuilt_field parse) fs)
  fields_named fs w = (
    Unique-map field_name (rebuilt_field parse) fs (λ f. refl) w.0,
    All-mapped (λ (f : Field). DirectivesWellNamed f.directives) (rebuilt_field parse) fs
        (All-map fs (λ f h. directives_named f.directives h) w.1),
  )

  enum_named : (e : Enum) → EnumWellNamed e → EnumWellNamed (rebuilt_enum parse e)
  enum_named e w = record {
    values = Unique-map value_name (rebuilt_value parse) e.values (λ v. refl) w.values;
    value_directives =
        All-mapped (λ (v : EnumValue). DirectivesWellNamed v.directives) (rebuilt_value parse)
          e.values (All-map e.values (λ v h. directives_named v.directives h) w.value_directives);
    directives = directives_named e.directives w.directives;
  }

  model_named : (m : Model) → ModelWellNamed m → ModelWellNamed (rebuilt_model parse m)
  model_named m w = record {
    fields = fields_named m.fields w.fields;
    directives =
        subst DirectivesWellNamed (sym (regular_is parse m))
          (directives_named (regular_directives m) w.directives);
  }

  rebuilt-WellNamed : (s : SchemaAst) → WellNamed s → WellNamed (rebuilt parse s)
  rebuilt-WellNamed s w = record {
    aliases =
        subst FieldsWellNamed (sym (aliases_rebuilt parse s))
          (fields_named (walk_type_aliases s) w.aliases);
    enum_names =
        subst (Unique enum_name) (sym (enums_rebuilt parse s))
          (Unique-map enum_name (rebuilt_enum parse) (walk_enums s) (λ e. refl) w.enum_names);
    enums = subst (All EnumWellNamed) (sym (enums_rebuilt parse s)) (
        All-mapped EnumWellNamed (rebuilt_enum parse) (walk_enums s)
          (All-map (walk_enums s) enum_named w.enums));
    source_names =
        subst (Unique source_name) (sym (sources_rebuilt parse s)) (
          Unique-map source_name (rebuilt_source parse) (walk_sources s) (λ c. refl)
            w.source_names);
    sources =
        subst (All (λ (c : SourceConfig). Unique argument_name c.properties))
          (sym (sources_rebuilt parse s))
          (All-mapped (λ (c : SourceConfig). Unique argument_name c.properties)
            (rebuilt_source parse) (walk_sources s)
            (All-map (walk_sources s)
              (λ c u. Unique-map argument_name (rebuilt_argument parse) c.properties (λ a. refl) u)
              w.sources));
    model_names =
        subst (Unique model_name) (sym (models_rebuilt parse s))
          (Unique-map model_name (rebuilt_model parse) (walk_models s) (λ m. refl) w.model_names);
    models = subst (All ModelWellNamed) (sym (models_rebuilt parse s)) (
        All-mapped ModelWellNamed (rebuilt_model parse) (walk_models s)
          (All-map (walk_models s) model_named w.models));
  }

  -- The schema that results from applying the steps that are inferred from the empty schema to a
  -- schema is `WellNamed`, if that schema is and the parser reads the printed values of its
  -- arguments.
  pub apply-infer-WellNamed :
      (s t : SchemaAst)
      → WellNamed s
      → SchemaReadable parse s
      → apply parse empty (infer empty s) ≡ ok t
      → WellNamed t
  apply-infer-WellNamed s t w r e =
      subst OkWellNamed (sym (apply-infer-empty parse s w r) ∙ e) (rebuilt-WellNamed s w)
