-- ===== src/Differ/AlikeEntries.antt =====
-- The steps between enums, sources and models that steps describe alike.
use mathlib.Core.List.{flat_map}
use prisma_engines.Prelude.{
  ◌≡◌, refl, ◌∙◌, none, List, [], ◌==◌, Unique, All, Pairwise, Bool, true, String,
}
use prisma_engines.Ast.Node.{Enum, Model, SourceConfig}
use prisma_engines.Steps.{UpdateEnum_is_any_option_set, MigrationStep}
use prisma_engines.Steps.Location.{ArgumentLocation, DirectivePath}
use prisma_engines.Differ.AlikePairs.{eq_alike, created_alike, deleted_alike, flat_map-pairs_alike}
use prisma_engines.Differ.Alike.{
  DirectiveAlike, FieldAlike, ValueAlike, EnumAlike, SourceAlike, ModelAlike,
}
use prisma_engines.Differ.Directives.{directives_match, directives_are_identical}
use prisma_engines.Differ.Enums
use prisma_engines.Differ.Models
use prisma_engines.Differ.Pairs.{Pair, created, deleted, pairs}
use prisma_engines.Differ.Source
use prisma_engines.Differ.Push.{
  push_updated_directives, push_created_directives, push_deleted_directives,
}
use prisma_engines.Differ.PushTypes.{push_updated_enum_value, push_updated_enum}
use prisma_engines.Differ.PushModels.{
  push_updated_field, push_updated_source, push_updated_model, push_created_fields,
  push_deleted_fields, push_updated_fields,
}
use prisma_engines.Differ.AlikeParts.{
  pair, diff_value_alike, Pairwise-and, created_arguments_alike, deleted_arguments_alike,
  push_updated_arguments_alike, created_directives_alike, deleted_directives_alike,
  push_updated_directives_alike, directives_are_identical_alike, push_updated_field-alike,
  push_updated_enum_value-alike,
}
use prisma_engines.WellNamed.{EnumWellNamed, ModelWellNamed, argument_name, field_name, value_name}

-- Entries of which no more than the name is tested.
module _ {A : Type 0} (ident : A → String) (R : A → A → Type 0)
    (same : (a b : A) → R a b → ident a ≡ ident b) (matches : A → A → Bool)
    (named : (a b : A) → matches a b ≡ (ident a == ident b)) (xs ys : List A)
    (h : Pairwise R xs ys) where
  fits : (a b : A) → R a b → matches a b ≡ true
  fits a b r = named a b ∙ eq_alike (same a b r)

  pub none_created : created matches xs ys ≡ []
  none_created = created_alike matches R fits xs ys h

  pub none_deleted : deleted matches xs ys ≡ []
  none_deleted = deleted_alike matches R fits xs ys h

  pub none_updated :
      {Q : A → Type 0} (f : Pair A → List MigrationStep)
      → ((a b : A) → R a b → Q b → f (pair a b) ≡ [])
      → Unique ident ys
      → All Q ys
      → flat_map f (pairs matches xs ys) ≡ []
  none_updated f settled u q =
      flat_map-pairs_alike matches f ys ident xs named u
        (Pairwise-and xs ys (λ a b r k. (same a b r, settled a b r k)) h q)

pub push_updated_enum-alike :
    (d e : Enum) → EnumAlike d e → EnumWellNamed e → push_updated_enum (pair d e) ≡ []
unfolding push_updated_enum UpdateEnum_is_any_option_set Enums.created_values Enums.deleted_values
    Enums.value_pairs Enums.created_directives Enums.deleted_directives Enums.directive_pairs
    Enums.values_match Enums.enum_directives_match push_created_directives push_deleted_directives
    push_updated_directives flat_map
push_updated_enum-alike d e h w = rw (
  none_created value_name ValueAlike (λ a b r. r.same_name) Enums.values_match (λ a b. refl)
      d.values e.values h.values,
  none_deleted value_name ValueAlike (λ a b r. r.same_name) Enums.values_match (λ a b. refl)
      d.values e.values h.values,
  diff_value_alike ◌==◌ d.name.name e.name.name (eq_alike h.same_name),
  none_updated value_name ValueAlike (λ a b r. r.same_name) Enums.values_match (λ a b. refl)
      d.values e.values h.values (push_updated_enum_value e.name.name)
      (push_updated_enum_value-alike e.name.name) w.values w.value_directives,
  created_directives_alike path Enums.enum_directives_match (λ a b. refl) d.directives e.directives
      h.directives,
  deleted_directives_alike path Enums.enum_directives_match (λ a b. refl) d.directives e.directives
      h.directives,
  push_updated_directives_alike path Enums.enum_directives_match (λ a b. refl) d.directives
      e.directives h.directives w.directives,
)
  where
    path : DirectivePath
    path = DirectivePath.enum d.name.name

pub push_updated_source-alike :
    (c d : SourceConfig)
    → SourceAlike c d
    → Unique argument_name d.properties
    → push_updated_source (pair c d) ≡ []
unfolding push_updated_source Source.created_arguments Source.deleted_arguments
    Source.argument_pairs flat_map
push_updated_source-alike c d h u = rw (
  created_arguments_alike location c.properties d.properties h.properties,
  deleted_arguments_alike location c.properties d.properties h.properties,
  push_updated_arguments_alike location c.properties d.properties h.properties u,
)
  where
    location : ArgumentLocation
    location = ArgumentLocation.source (record { source = c.name.name })

pub push_updated_model-alike :
    (m n : Model) → ModelAlike m n → ModelWellNamed n → push_updated_model (pair m n) ≡ []
unfolding push_updated_model Models.created_fields Models.deleted_fields Models.field_pairs
    Models.created_regular_directives Models.deleted_regular_directives
    Models.regular_directive_pairs Models.created_repeated_directives
    Models.deleted_repeated_directives Models.fields_match push_created_fields push_deleted_fields
    push_updated_fields push_created_directives push_deleted_directives push_updated_directives
    flat_map directives_match
push_updated_model-alike m n h w = rw (
  none_created field_name FieldAlike (λ a b r. r.same_name) Models.fields_match (λ a b. refl)
      m.fields n.fields h.fields,
  none_deleted field_name FieldAlike (λ a b r. r.same_name) Models.fields_match (λ a b. refl)
      m.fields n.fields h.fields,
  none_updated field_name FieldAlike (λ a b r. r.same_name) Models.fields_match (λ a b. refl)
      m.fields n.fields h.fields (push_updated_field m.name.name)
      (push_updated_field-alike m.name.name) w.fields.0 w.fields.1,
  created_directives_alike path directives_match (λ a b. refl) (Models.regular_directives m)
      (Models.regular_directives n) h.regular,
  deleted_directives_alike path directives_match (λ a b. refl) (Models.regular_directives m)
      (Models.regular_directives n) h.regular,
  push_updated_directives_alike path directives_match (λ a b. refl) (Models.regular_directives m)
      (Models.regular_directives n) h.regular w.directives,
  created_alike directives_are_identical DirectiveAlike directives_are_identical_alike
      (Models.repeated_directives m) (Models.repeated_directives n) h.repeated,
  deleted_alike directives_are_identical DirectiveAlike directives_are_identical_alike
      (Models.repeated_directives m) (Models.repeated_directives n) h.repeated,
)
  where
    path : DirectivePath
    path = DirectivePath.model m.name.name none
