-- ===== src/Ast/Schema.antt =====
-- `SchemaAst` and its searches: libs/datamodel/core/src/ast/mod.rs. A `find_…_mut` returns a `Ref`.
pub mod Located
pub mod Lens
pub mod Apart
use mathlib.Core.Option
use mathlib.Core.List.{filter_map}
use prisma_engines.Prelude.{String, Option, none, some, List, [], ◌==◌, find, Ref, via, find_mut}
use prisma_engines.Ast.Node.{
  Top, Enum, Model, SourceConfig, GeneratorConfig, Field, as_model, as_enum, as_type_alias,
  as_source,
}
use prisma_engines.Ast.Kind.{find_top_mut, model_kind, enum_kind, source_kind, type_kind}

pub record SchemaAst : Type 0 where
  pub tops : List Top

unfoldable pub empty : SchemaAst
empty = record { tops = [] }

unfoldable pub types : SchemaAst → List Field
types s = filter_map as_type_alias s.tops

unfoldable pub enums : SchemaAst → List Enum
enums s = filter_map as_enum s.tops

unfoldable pub models : SchemaAst → List Model
models s = filter_map as_model s.tops

unfoldable pub sources : SchemaAst → List SourceConfig
sources s = filter_map as_source s.tops

abbrev pub as_generator : Top → Option GeneratorConfig
as_generator (Top.generator x) = some x
as_generator _ = none

unfoldable pub generators : SchemaAst → List GeneratorConfig
generators s = filter_map as_generator s.tops

-- The write back from the list of entries to the schema.
abbrev pub in_schema : {A : Type 0} → Ref (List Top) A → Ref SchemaAst A
in_schema r = record { value = r.value; put = λ a. record { tops = r.put a } }

unfoldable pub find_source : SchemaAst → String → Option SourceConfig
unfolding sources
find_source s source = find (λ x. x.name.name == source) (sources s)

unfoldable pub find_source_mut : SchemaAst → String → Option (Ref SchemaAst SourceConfig)
find_source_mut s source = Option.map in_schema (find_top_mut source_kind source s.tops)

unfoldable pub find_model : SchemaAst → String → Option Model
unfolding models
find_model s model = find (λ m. m.name.name == model) (models s)

unfoldable pub find_model_mut : SchemaAst → String → Option (Ref SchemaAst Model)
find_model_mut s model_name = Option.map in_schema (find_top_mut model_kind model_name s.tops)

unfoldable pub find_type_alias : SchemaAst → String → Option Field
unfolding types
find_type_alias s type_name = find (λ t. t.name.name == type_name) (types s)

unfoldable pub find_type_alias_mut : SchemaAst → String → Option (Ref SchemaAst Field)
find_type_alias_mut s type_name = Option.map in_schema (find_top_mut type_kind type_name s.tops)

unfoldable pub find_enum : SchemaAst → String → Option Enum
unfolding enums
find_enum s enum_name = find (λ e. e.name.name == enum_name) (enums s)

unfoldable pub find_enum_mut : SchemaAst → String → Option (Ref SchemaAst Enum)
find_enum_mut s enum_name = Option.map in_schema (find_top_mut enum_kind enum_name s.tops)

abbrev pub and_then {ℓ κ} : {A : Type ℓ} {B : Type κ} → Option A → (A → Option B) → Option B
and_then none f = none
and_then (some a) f = f a

unfoldable pub find_field : SchemaAst → String → String → Option Field
unfolding find_model
find_field s model field =
    and_then (find_model s model) (λ m. find (λ f. f.name.name == field) m.fields)

-- The references to the parts of a model and of an enum.
abbrev pub fields_ref : Model → Ref Model (List Field)
fields_ref m = record { value = m.fields; put = λ fields. record m { fields = fields } }

unfoldable pub find_field_mut : SchemaAst → String → String → Option (Ref SchemaAst Field)
unfolding find_model_mut
find_field_mut s model field = and_then (find_model_mut s model) (λ m.
    Option.map (λ r. via (via m (fields_ref m.value)) r)
      (find_mut (λ (model_field : Field). model_field.name.name == field) m.value.fields))
