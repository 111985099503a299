-- ===== src/Ast/Node.antt =====
-- The nodes of the AST: libs/datamodel/core/src/ast/{argument,directive,field,enum,model,
-- source_config,generator_config,top}.rs.
use prisma_engines.Prelude.{String, Bool, Option, none, some, List, ◌==◌}
use prisma_engines.Ast.Span.{Span, Span_empty, Identifier, Identifier_new, Comment}
use prisma_engines.Ast.Expression.{
  Expression, Expressions, string_value, constant_value, array, function,
}

pub record Argument : Type 0 where
  pub name : Identifier
  pub value : Expression
  pub span : Span

-- The constructors and the test of `Argument`.
unfoldable pub new_string : String → String → Argument
new_string name value = record {
  name = Identifier_new name;
  value = string_value value Span_empty;
  span = Span_empty;
}

unfoldable pub new_constant : String → String → Argument
new_constant name value = record {
  name = Identifier_new name;
  value = constant_value value Span_empty;
  span = Span_empty;
}

unfoldable pub new_array : String → Expressions → Argument
new_array name value = record {
  name = Identifier_new name;
  value = array value Span_empty;
  span = Span_empty;
}

unfoldable pub new_function : String → String → Expressions → Argument
new_function name fn_name value = record {
  name = Identifier_new name;
  value = function fn_name value Span_empty;
  span = Span_empty;
}

unfoldable pub Argument_new : String → Expression → Argument
Argument_new name value = record { name = Identifier_new name; value = value; span = Span_empty }

unfoldable pub new_unnamed : Expression → Argument
new_unnamed value = record { name = Identifier_new ""; value = value; span = Span_empty }

unfoldable pub is_unnamed : Argument → Bool
is_unnamed argument = argument.name.name == ""

pub record Directive : Type 0 where
  pub name : Identifier
  pub arguments : List Argument
  pub span : Span

unfoldable pub Directive_new : String → List Argument → Directive
Directive_new name arguments = record {
  name = Identifier_new name;
  arguments = arguments;
  span = Span_empty;
}

pub data FieldArity : Type 0 where
  required optional list : FieldArity

pub record Field : Type 0 where
  pub field_type : Identifier
  pub name : Identifier
  pub arity : FieldArity
  pub default_value : Option Expression
  pub directives : List Directive
  pub documentation : Option Comment
  pub span : Span
  pub is_commented_out : Bool

pub record EnumValue : Type 0 where
  pub name : Identifier
  pub directives : List Directive
  pub documentation : Option Comment
  pub span : Span
  pub commented_out : Bool

pub record Enum : Type 0 where
  pub name : Identifier
  pub values : List EnumValue
  pub directives : List Directive
  pub documentation : Option Comment
  pub span : Span

pub record Model : Type 0 where
  pub name : Identifier
  pub fields : List Field
  pub directives : List Directive
  pub documentation : Option Comment
  pub span : Span
  pub commented_out : Bool

pub record SourceConfig : Type 0 where
  pub name : Identifier
  pub properties : List Argument
  pub documentation : Option Comment
  pub span : Span

pub record GeneratorConfig : Type 0 where
  pub name : Identifier
  pub properties : List Argument
  pub documentation : Option Comment
  pub span : Span

pub data Top : Type 0 where
  enum : Enum → Top
  model : Model → Top
  source : SourceConfig → Top
  generator : GeneratorConfig → Top
  type : Field → Top

unfoldable pub identifier : Top → Identifier
identifier (enum x) = x.name
identifier (model x) = x.name
identifier (source x) = x.name
identifier (generator x) = x.name
identifier (type x) = x.name

unfoldable pub span : Top → Span
span (enum x) = x.span
span (model x) = x.span
span (source x) = x.span
span (generator x) = x.span
span (type x) = x.span

unfoldable pub get_type : Top → String
get_type (enum _) = "enum"
get_type (model _) = "model"
get_type (source _) = "source"
get_type (generator _) = "generator"
get_type (type _) = "type"

unfoldable pub name : Top → String
name (enum x) = x.name.name
name (model x) = x.name.name
name (source x) = x.name.name
name (generator x) = x.name.name
name (type x) = x.name.name

unfoldable pub as_model : Top → Option Model
as_model (model m) = some m
as_model _ = none

unfoldable pub as_enum : Top → Option Enum
as_enum (enum e) = some e
as_enum _ = none

unfoldable pub as_type_alias : Top → Option Field
as_type_alias (type t) = some t
as_type_alias _ = none

unfoldable pub as_source : Top → Option SourceConfig
as_source (source s) = some s
as_source _ = none
