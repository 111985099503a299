-- ===== src/Calculator/FramedRefs.antt =====
-- The references that the operations of
-- migration-engine/core/src/migration/datamodel_calculator.rs write through, and the entries of other
-- kinds.
use prisma_engines.Prelude.{String, refl, Option, find_mut}
use prisma_engines.Ast.Node.{Top}
use prisma_engines.Ast.Kind.{find_top_mut, model_kind, enum_kind, source_kind, type_kind}
use prisma_engines.Ast.Schema.{
  SchemaAst, find_model_mut, find_enum_mut, find_source_mut, find_type_alias_mut, find_field_mut,
}
use prisma_engines.Steps.Location.{DirectivePath, ArgumentLocation}
use prisma_engines.Calculator.Directives.{
  find_directives_mut, find_directive_mut, find_argument_container, field_directives,
  model_directives, enum_directives, source_arguments, directive_arguments,
}
use prisma_engines.Calculator.Kinds.{enums, models, sources, types, path_kind, location_kind}
use prisma_engines.Calculator.Unchanged.{
  Hides, Framed, Framed-top, Framed-via, Framed-map, Framed-then,
}

module _ {B : Type 0} (other : Top → Option B) where
  module _ (s : SchemaAst) where
    pub Framed-model : Hides other models → (name : String) → Framed other s (find_model_mut s name)
    unfolding find_model_mut
    Framed-model h name =
        Framed-top other s model_kind h name (find_top_mut model_kind name s.tops) refl

    pub Framed-enum : Hides other enums → (name : String) → Framed other s (find_enum_mut s name)
    unfolding find_enum_mut
    Framed-enum h name =
        Framed-top other s enum_kind h name (find_top_mut enum_kind name s.tops) refl

    pub Framed-source :
        Hides other sources → (name : String) → Framed other s (find_source_mut s name)
    unfolding find_source_mut
    Framed-source h name =
        Framed-top other s source_kind h name (find_top_mut source_kind name s.tops) refl

    pub Framed-type :
        Hides other types → (name : String) → Framed other s (find_type_alias_mut s name)
    unfolding find_type_alias_mut
    Framed-type h name =
        Framed-top other s type_kind h name (find_top_mut type_kind name s.tops) refl

    pub Framed-field :
        Hides other models → (model field : String) → Framed other s (find_field_mut s model field)
    unfolding find_field_mut
    Framed-field h model field =
        Framed-then other s (find_model_mut s model) _ (Framed-model h model)
          (λ r k. Framed-map other s _ (find_mut _ r.value.fields) (λ f c. k _))

    pub Framed-directives :
        (path : DirectivePath)
        → Hides other (path_kind path)
        → Framed other s (find_directives_mut s path)
    unfolding find_directives_mut
    Framed-directives (DirectivePath.field m f) h =
        Framed-via other s (λ r. field_directives r.value) (find_field_mut s m f)
          (Framed-field h m f)
    Framed-directives (DirectivePath.model m _) h =
        Framed-via other s (λ r. model_directives r.value) (find_model_mut s m) (Framed-model h m)
    Framed-directives (DirectivePath.enum e) h =
        Framed-via other s (λ r. enum_directives r.value) (find_enum_mut s e) (Framed-enum h e)
    Framed-directives (DirectivePath.enum_value e v) h =
        Framed-then other s (find_enum_mut s e) _ (Framed-enum h e)
          (λ r k. Framed-map other s _ (find_mut _ r.value.values) (λ v' ds. k _))
    Framed-directives (DirectivePath.type_alias t) h =
        Framed-via other s (λ r. field_directives r.value) (find_type_alias_mut s t)
          (Framed-type h t)

    pub Framed-container :
        (location : ArgumentLocation)
        → Hides other (location_kind location)
        → Framed other s (find_argument_container s location)
    unfolding find_argument_container find_directive_mut
    Framed-container (ArgumentLocation.source location) h =
        Framed-via other s (λ r. source_arguments r.value) (find_source_mut s location.source)
          (Framed-source h location.source)
    Framed-container (ArgumentLocation.directive location) h =
        Framed-via other s (λ r. directive_arguments r.value) (find_directive_mut s location)
          (Framed-then other s (find_directives_mut s location.path) _
            (Framed-directives location.path h)
            (λ r k. Framed-map other s _ (find_mut _ r.value) (λ d c. k _)))
