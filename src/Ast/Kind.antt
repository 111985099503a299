-- ===== src/Ast/Kind.antt =====
-- The four kinds of named top-level entries that the migration engine changes, for the searches
-- of libs/datamodel/core/src/ast/mod.rs that differ in nothing else.
use prisma_engines.Prelude.{
  String, ◌≡◌, refl, Bool, true, not, Option, none, some, List, ◌==◌, if◌then◌else◌, Ref,
  find_map_mut, arith,
}
use prisma_engines.Ast.Node.{
  Top, Enum, Model, SourceConfig, Field, as_model, as_enum, as_type_alias, as_source,
}

pub record Kind (A : Type 0) : Type 0 where
  pub view : Top → Option A
  pub wrap : A → Top
  pub ident : A → String
  pub view-wrap : (a : A) → view (wrap a) ≡ some a
  pub wrap-view : (t : Top) (a : A) → view t ≡ some a → wrap a ≡ t

pub model-wrap : (t : Top) (a : Model) → as_model t ≡ some a → Top.model a ≡ t
unfolding as_model
model-wrap t a h = ground arith

pub enum-wrap : (t : Top) (a : Enum) → as_enum t ≡ some a → Top.enum a ≡ t
unfolding as_enum
enum-wrap t a h = ground arith

pub source-wrap : (t : Top) (a : SourceConfig) → as_source t ≡ some a → Top.source a ≡ t
unfolding as_source
source-wrap t a h = ground arith

pub type-wrap : (t : Top) (a : Field) → as_type_alias t ≡ some a → Top.type a ≡ t
unfolding as_type_alias
type-wrap t a h = ground arith

pub model-view : (a : Model) → as_model (Top.model a) ≡ some a
unfolding as_model
model-view a = refl

pub enum-view : (a : Enum) → as_enum (Top.enum a) ≡ some a
unfolding as_enum
enum-view a = refl

pub source-view : (a : SourceConfig) → as_source (Top.source a) ≡ some a
unfolding as_source
source-view a = refl

pub type-view : (a : Field) → as_type_alias (Top.type a) ≡ some a
unfolding as_type_alias
type-view a = refl

abbrev pub model_kind : Kind Model
model_kind = record {
  view = as_model;
  wrap = Top.model;
  ident = λ m. m.name.name;
  view-wrap = model-view;
  wrap-view = model-wrap;
}

abbrev pub enum_kind : Kind Enum
enum_kind = record {
  view = as_enum;
  wrap = Top.enum;
  ident = λ e. e.name.name;
  view-wrap = enum-view;
  wrap-view = enum-wrap;
}

abbrev pub source_kind : Kind SourceConfig
source_kind = record {
  view = as_source;
  wrap = Top.source;
  ident = λ s. s.name.name;
  view-wrap = source-view;
  wrap-view = source-wrap;
}

abbrev pub type_kind : Kind Field
type_kind = record {
  view = as_type_alias;
  wrap = Top.type;
  ident = λ t. t.name.name;
  view-wrap = type-view;
  wrap-view = type-wrap;
}

module _ {A : Type 0} (kind : Kind A) where
  -- The reference to an entry of the kind and the name, as `Top::Model(m) if m.name.name == name`.
  abbrev pub when_named : String → Option A → Option (Ref Top A)
  when_named name none = none
  when_named name (some a) =
      if kind.ident a == name then some (record { value = a; put = kind.wrap }) else none

  abbrev pub top_ref : String → Top → Option (Ref Top A)
  top_ref name top = when_named name (kind.view top)

  -- The test by which a delete step keeps an entry: all but those of the kind and the name.
  abbrev pub unless_named : String → Option A → Bool
  unless_named name none = true
  unless_named name (some a) = not (kind.ident a == name)

  abbrev pub keeps : String → Top → Bool
  keeps name top = unless_named name (kind.view top)

  abbrev pub find_top_mut : String → List Top → Option (Ref (List Top) A)
  find_top_mut name tops = find_map_mut (top_ref name) tops
