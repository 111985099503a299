-- ===== src/WellNamed.antt =====
-- Schemas in which no two entries of a kind have the same name, at each level of the tree. The
-- validator of libs/datamodel rejects the others. Repeated directives of a model are exempt.
use prisma_engines.Prelude.{String, List, All, Unique}
use prisma_engines.Ast.Node.{Argument, Directive, Field, EnumValue, Enum, Model, SourceConfig}
use prisma_engines.Ast.Schema.{SchemaAst}
use prisma_engines.Differ.Models.{regular_directives}
use prisma_engines.Differ.Top.{walk_type_aliases, walk_enums, walk_sources, walk_models}

abbrev pub argument_name : Argument → String
argument_name a = a.name.name

abbrev pub directive_name : Directive → String
directive_name d = d.name.name

abbrev pub field_name : Field → String
field_name f = f.name.name

abbrev pub value_name : EnumValue → String
value_name v = v.name.name

abbrev pub enum_name : Enum → String
enum_name e = e.name.name

abbrev pub model_name : Model → String
model_name m = m.name.name

abbrev pub source_name : SourceConfig → String
source_name s = s.name.name

abbrev pub DirectivesWellNamed : List Directive → Type 0
DirectivesWellNamed ds =
    Unique directive_name ds × All (λ (d : Directive). Unique argument_name d.arguments) ds

abbrev pub FieldsWellNamed : List Field → Type 0
FieldsWellNamed fs = Unique field_name fs × All (λ (f : Field). DirectivesWellNamed f.directives) fs

pub record EnumWellNamed (e : Enum) : Type 0 where
  pub values : Unique value_name e.values
  pub value_directives : All (λ (v : EnumValue). DirectivesWellNamed v.directives) e.values
  pub directives : DirectivesWellNamed e.directives

pub record ModelWellNamed (m : Model) : Type 0 where
  pub fields : FieldsWellNamed m.fields
  pub directives : DirectivesWellNamed (regular_directives m)

pub record WellNamed (s : SchemaAst) : Type 0 where
  pub aliases : FieldsWellNamed (walk_type_aliases s)
  pub enum_names : Unique enum_name (walk_enums s)
  pub enums : All EnumWellNamed (walk_enums s)
  pub source_names : Unique source_name (walk_sources s)
  pub sources : All (λ (c : SourceConfig). Unique argument_name c.properties) (walk_sources s)
  pub model_names : Unique model_name (walk_models s)
  pub models : All ModelWellNamed (walk_models s)
