-- ===== src/Differ/Alike.antt =====
-- Schemas that agree in all that migration steps describe: their type aliases, enums, sources and
-- models, kind by kind and in their order, with names, types, arities, values, directives and the
-- printed values of arguments. Spans, documentation, default values, comment marks and generators
-- may differ.
use prisma_engines.Prelude.{◌≡◌, refl, List, Pairwise, Pairwise-refl}
use prisma_engines.Ast.Node.{Argument, Directive, Field, EnumValue, Enum, Model, SourceConfig}
use prisma_engines.Ast.Schema.{SchemaAst}
use prisma_engines.Steps.Location.{from_ast_expression}
use prisma_engines.Differ.Models.{regular_directives, repeated_directives}
use prisma_engines.Differ.Top.{walk_type_aliases, walk_enums, walk_sources, walk_models}

pub record ArgumentAlike (a b : Argument) : Type 0 where
  pub same_name : a.name.name ≡ b.name.name
  pub same_text : (from_ast_expression a.value).text ≡ (from_ast_expression b.value).text

pub record DirectiveAlike (d e : Directive) : Type 0 where
  pub same_name : d.name.name ≡ e.name.name
  pub arguments : Pairwise ArgumentAlike d.arguments e.arguments

abbrev pub DirectivesAlike : List Directive → List Directive → Type 0
DirectivesAlike = Pairwise DirectiveAlike

pub record FieldAlike (f g : Field) : Type 0 where
  pub same_name : f.name.name ≡ g.name.name
  pub same_type : f.field_type.name ≡ g.field_type.name
  pub same_arity : f.arity ≡ g.arity
  pub directives : DirectivesAlike f.directives g.directives

pub record ValueAlike (v w : EnumValue) : Type 0 where
  pub same_name : v.name.name ≡ w.name.name
  pub directives : DirectivesAlike v.directives w.directives

pub record EnumAlike (d e : Enum) : Type 0 where
  pub same_name : d.name.name ≡ e.name.name
  pub values : Pairwise ValueAlike d.values e.values
  pub directives : DirectivesAlike d.directives e.directives

pub record SourceAlike (c d : SourceConfig) : Type 0 where
  pub same_name : c.name.name ≡ d.name.name
  pub properties : Pairwise ArgumentAlike c.properties d.properties

pub record ModelAlike (m n : Model) : Type 0 where
  pub same_name : m.name.name ≡ n.name.name
  pub fields : Pairwise FieldAlike m.fields n.fields
  pub regular : DirectivesAlike (regular_directives m) (regular_directives n)
  pub repeated : DirectivesAlike (repeated_directives m) (repeated_directives n)

pub record Alike (s t : SchemaAst) : Type 0 where
  pub aliases : Pairwise FieldAlike (walk_type_aliases s) (walk_type_aliases t)
  pub enums : Pairwise EnumAlike (walk_enums s) (walk_enums t)
  pub sources : Pairwise SourceAlike (walk_sources s) (walk_sources t)
  pub models : Pairwise ModelAlike (walk_models s) (walk_models t)

ArgumentAlike-refl : (a : Argument) → ArgumentAlike a a
ArgumentAlike-refl a = record { same_name = refl; same_text = refl }

pub DirectiveAlike-refl : (d : Directive) → DirectiveAlike d d
DirectiveAlike-refl d = record {
  same_name = refl;
  arguments = Pairwise-refl ArgumentAlike d.arguments ArgumentAlike-refl;
}

DirectivesAlike-refl : (ds : List Directive) → DirectivesAlike ds ds
DirectivesAlike-refl ds = Pairwise-refl DirectiveAlike ds DirectiveAlike-refl

pub FieldAlike-refl : (f : Field) → FieldAlike f f
FieldAlike-refl f = record {
  same_name = refl;
  same_type = refl;
  same_arity = refl;
  directives = DirectivesAlike-refl f.directives;
}

ValueAlike-refl : (v : EnumValue) → ValueAlike v v
ValueAlike-refl v = record { same_name = refl; directives = DirectivesAlike-refl v.directives }

pub EnumAlike-refl : (e : Enum) → EnumAlike e e
EnumAlike-refl e = record {
  same_name = refl;
  values = Pairwise-refl ValueAlike e.values ValueAlike-refl;
  directives = DirectivesAlike-refl e.directives;
}

pub SourceAlike-refl : (c : SourceConfig) → SourceAlike c c
SourceAlike-refl c = record {
  same_name = refl;
  properties = Pairwise-refl ArgumentAlike c.properties ArgumentAlike-refl;
}
