-- ===== src/Roundtrip/Erase.antt =====
-- From a schema to the empty one: `infer` and then `apply`, where the schema has no source, and
-- where it has one.
use mathlib.Core.List.{flat_map, filter_map}
use prisma_engines.Prelude.{
  String, ◌≡◌, refl, sym, ap, ◌∙◌, Bool, true, Option, none, some, List, [], ◌∷◌, ◌++◌, append-nil,
  append_assoc, subst, ok, err, ok_or, ◌>>=◌, is_some, All_of, filter, filter_self, find, Unique,
}
use prisma_engines.Ast.Expression.{Expression}
use prisma_engines.Ast.Node.{Top, SourceConfig, as_model, as_enum, as_source, as_type_alias}
use prisma_engines.Ast.Kind.{model_kind, enum_kind, type_kind}
use prisma_engines.Ast.Schema.{
  SchemaAst, empty, find_model, find_enum, find_type_alias, as_generator,
}
use prisma_engines.Calculator.Errors.{CalculatorError, source_missing}
use prisma_engines.Calculator.Apply.{apply, apply_step}
use prisma_engines.Calculator.Tops.{
  apply_delete_model, apply_delete_enum, apply_delete_type_alias, apply_delete_source,
}
use prisma_engines.Calculator.Others.{apply-append}
use prisma_engines.Differ.Pairs.{created, deleted, pairs}
use prisma_engines.Differ.Top
use prisma_engines.Differ.Top.{walk_type_aliases, walk_enums, walk_sources, walk_models}
use prisma_engines.Differ.PushTypes.{
  push_type_aliases, push_enums, push_created_type_aliases, push_deleted_type_aliases,
  push_updated_type_aliases, push_created_enums, push_deleted_enums, push_updated_enums,
}
use prisma_engines.Differ.PushModels.{
  push_datasources, push_models, push_created_sources, push_deleted_sources, push_updated_sources,
  push_created_models, push_deleted_models, push_updated_models,
}
use prisma_engines.Differ.Diff.{diff, infer}
use prisma_engines.WellNamed.{WellNamed, field_name, enum_name, model_name}
use prisma_engines.Roundtrip.Grow.{apply_both}
use prisma_engines.Roundtrip.Deletions.{is_other, delete_all}

module _ {A : Type 0} (matches : A → A → Bool) (xs : List A) where
  deleted_to_none : deleted matches xs [] ≡ xs
  unfolding deleted find
  deleted_to_none = filter_self _ xs (All_of xs (λ x. refl))

pairs_to_none : {A : Type 0} (matches : A → A → Bool) (xs : List A) → pairs matches xs [] ≡ []
unfolding pairs find filter_map
pairs_to_none matches [] = refl
pairs_to_none matches (x ∷ xs) = pairs_to_none matches xs

-- The steps to the empty schema are those that delete each entry.
steps_to_empty :
    (s : SchemaAst)
    → infer s empty
      ≡ push_deleted_type_aliases (walk_type_aliases s)
        ++ (push_deleted_enums (walk_enums s)
            ++ (push_deleted_sources (walk_sources s) ++ push_deleted_models (walk_models s)))
unfolding infer diff push_type_aliases push_enums push_datasources push_models
    Top.created_type_aliases Top.deleted_type_aliases Top.type_alias_pairs Top.created_enums
    Top.deleted_enums Top.enum_pairs Top.created_datasources Top.deleted_datasources
    Top.updated_datasources Top.created_models Top.deleted_models Top.model_pairs created
    Top.walk_type_aliases Top.walk_enums Top.walk_sources Top.walk_models empty
    push_created_type_aliases push_updated_type_aliases push_created_enums push_updated_enums
    push_created_sources push_updated_sources push_created_models push_updated_models flat_map
    filter_map filter
steps_to_empty s =
    rw
      (
        deleted_to_none Top.type_aliases_match (walk_type_aliases s),
        deleted_to_none Top.enums_match (walk_enums s),
        deleted_to_none (λ next previous. Top.sources_match previous next) (walk_sources s),
        deleted_to_none Top.models_match (walk_models s),
        pairs_to_none Top.type_aliases_match (walk_type_aliases s),
        pairs_to_none Top.enums_match (walk_enums s),
        pairs_to_none Top.sources_match (walk_sources s),
        pairs_to_none Top.models_match (walk_models s),
      )
      (simp append-nil)

found :
    {A : Type 0} (o : Option A) (e : CalculatorError) (s : SchemaAst)
    → is_some o ≡ true
    → (ok_or o e >>= λ _. ok s) ≡ ok s
found none e s h = cc
found (some a) e s h = refl

module _ (parse : String → Option Expression) (ts : List Top) where
  delete_aliases :
      Unique field_name (walk_type_aliases (record { tops = ts }))
      → apply parse
          (record { tops = ts })
          (push_deleted_type_aliases (walk_type_aliases (record { tops = ts })))
        ≡ ok (record { tops = filter (is_other type_kind) ts })
  unfolding push_deleted_type_aliases apply_step apply_delete_type_alias find_type_alias
      walk_type_aliases
  delete_aliases u = delete_all parse type_kind _ (λ us a h. found _ _ _ h) _ ts refl u

  delete_enums :
      Unique enum_name (walk_enums (record { tops = ts }))
      → apply parse (record { tops = ts }) (push_deleted_enums (walk_enums (record { tops = ts })))
        ≡ ok (record { tops = filter (is_other enum_kind) ts })
  unfolding push_deleted_enums apply_step apply_delete_enum find_enum walk_enums
  delete_enums u = delete_all parse enum_kind _ (λ us a h. found _ _ _ h) _ ts refl u

  delete_models :
      Unique model_name (walk_models (record { tops = ts }))
      → apply parse
          (record { tops = ts })
          (push_deleted_models (walk_models (record { tops = ts })))
        ≡ ok (record { tops = filter (is_other model_kind) ts })
  unfolding push_deleted_models apply_step apply_delete_model find_model walk_models
  delete_models u = delete_all parse model_kind _ (λ us a h. found _ _ _ h) _ ts refl u

-- The entries without the type aliases, and without the enums too.
abbrev no_types : List Top → List Top
no_types = filter (is_other type_kind)

abbrev no_enums : List Top → List Top
no_enums ts = filter (is_other enum_kind) (no_types ts)

enums_left : (ts : List Top) → filter_map as_enum (no_types ts) ≡ filter_map as_enum ts
unfolding filter filter_map as_enum as_type_alias
enums_left [] = refl
enums_left (Top.type t ∷ ts) = enums_left ts
enums_left (Top.enum e ∷ ts) = ap (◌∷◌ e) (enums_left ts)
enums_left (Top.model m ∷ ts) = enums_left ts
enums_left (Top.source m ∷ ts) = enums_left ts
enums_left (Top.generator m ∷ ts) = enums_left ts

models_left : (ts : List Top) → filter_map as_model (no_enums ts) ≡ filter_map as_model ts
unfolding filter filter_map as_enum as_type_alias as_model
models_left [] = refl
models_left (Top.type t ∷ ts) = models_left ts
models_left (Top.enum e ∷ ts) = models_left ts
models_left (Top.model m ∷ ts) = ap (◌∷◌ m) (models_left ts)
models_left (Top.source m ∷ ts) = models_left ts
models_left (Top.generator m ∷ ts) = models_left ts

abbrev pub is_generator : Top → Bool
is_generator t = is_some (as_generator t)

generators_left :
    (ts : List Top)
    → filter_map as_source ts ≡ []
    → filter (is_other model_kind) (no_enums ts) ≡ filter is_generator ts
unfolding filter filter_map as_enum as_type_alias as_model as_source
generators_left [] h = refl
generators_left (Top.type t ∷ ts) h = generators_left ts h
generators_left (Top.enum e ∷ ts) h = generators_left ts h
generators_left (Top.model m ∷ ts) h = generators_left ts h
generators_left (Top.source m ∷ ts) h = cc
generators_left (Top.generator g ∷ ts) h = ap (◌∷◌ (Top.generator g)) (generators_left ts h)

module _ (parse : String → Option Expression) (s : SchemaAst) (w : WellNamed s) where
  -- Type aliases and enums are deleted first.
  first_deletions :
      apply parse s
        (push_deleted_type_aliases (walk_type_aliases s) ++ push_deleted_enums (walk_enums s))
      ≡ ok (record { tops = no_enums s.tops })
  unfolding walk_enums
  first_deletions =
      apply_both parse s (record { tops = no_types s.tops }) _
        (push_deleted_type_aliases (walk_type_aliases s)) (push_deleted_enums (walk_enums s))
        (delete_aliases parse s.tops w.aliases.0)
        (ap (λ es. apply parse (record { tops = no_types s.tops }) (push_deleted_enums es))
            (sym (enums_left s.tops))
          ∙ delete_enums parse (no_types s.tops)
              (subst (Unique enum_name) (sym (enums_left s.tops)) w.enum_names))

  -- The steps that are inferred from a `WellNamed` schema without sources to the empty schema
  -- succeed, and of its entries exactly the generators are left, in their order.
  pub apply-infer_to_empty :
      walk_sources s ≡ []
      → apply parse s (infer s empty) ≡ ok (record { tops = filter is_generator s.tops })
  unfolding walk_sources walk_models push_deleted_sources
  apply-infer_to_empty h = rw (steps_to_empty s) (
      rw h (
        ap (apply parse s) (
          sym (
            append_assoc (push_deleted_type_aliases (walk_type_aliases s))
              (push_deleted_enums (walk_enums s)) (push_deleted_models (walk_models s))))
        ∙ (apply_both parse s (record { tops = no_enums s.tops }) _
            (push_deleted_type_aliases (walk_type_aliases s) ++ push_deleted_enums (walk_enums s))
            (push_deleted_models (walk_models s)) first_deletions
            (ap (λ ms. apply parse (record { tops = no_enums s.tops }) (push_deleted_models ms))
                (sym (models_left s.tops))
              ∙ (delete_models parse (no_enums s.tops)
                    (subst (Unique model_name) (sym (models_left s.tops)) w.model_names)
                  ∙ ap (λ us. ok (record { tops = us })) (generators_left s.tops h))))))

  -- Where a `WellNamed` schema has a source, and no model has the name of its first source, the steps
  -- to the empty schema fail: the calculator says that this source does not exist.
  pub delete_source_fails :
      (c : SourceConfig) (cs : List SourceConfig)
      → walk_sources s ≡ c ∷ cs
      → find_model s c.name.name ≡ none
      → apply parse s (infer s empty) ≡ err (source_missing c.name.name)
  unfolding push_deleted_sources apply apply_step apply_delete_source find_model
  delete_source_fails c cs e h =
      rw (steps_to_empty s, e)
        (ap (apply parse s) (
            sym (
              append_assoc (push_deleted_type_aliases (walk_type_aliases s))
                (push_deleted_enums (walk_enums s)) _))
          ∙ (apply-append parse s
                (push_deleted_type_aliases (walk_type_aliases s)
                  ++ push_deleted_enums (walk_enums s))
                _
              ∙ rw first_deletions (rw (models_left s.tops, h) refl)))
