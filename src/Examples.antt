-- ===== src/Examples.antt =====
-- A schema with an entry of each kind, at which the development is tried.
use prisma_engines.Prelude.{String, false, Option, none, some, List, [], ◌∷◌}
use prisma_engines.Ast.Span.{Span_empty, Identifier_new}
use prisma_engines.Ast.Expression.{Expression, constant_value}
use prisma_engines.Ast.Node
use prisma_engines.Ast.Node.{
  Top, Argument, Directive, Field, EnumValue, Enum, Model, SourceConfig, GeneratorConfig,
}
use prisma_engines.Ast.Schema.{SchemaAst}
mod Diffing
mod Applying
mod Rendering
mod Applied
mod Commanded
mod RolledBack
mod Described
mod Expanded

-- A parser that reads every text as a constant.
abbrev pub parse_constant : String → Option Expression
parse_constant text = some (constant_value text Span_empty)

abbrev pub argument : String → String → Argument
argument name value = record {
  name = Identifier_new name;
  value = constant_value value Span_empty;
  span = Span_empty;
}

abbrev pub directive : String → List Argument → Directive
directive name arguments = record {
  name = Identifier_new name;
  arguments = arguments;
  span = Span_empty;
}

abbrev pub field : String → String → List Directive → Field
field name tpe directives = record {
  field_type = Identifier_new tpe;
  name = Identifier_new name;
  arity = Node.FieldArity.optional;
  default_value = none;
  directives = directives;
  documentation = none;
  span = Span_empty;
  is_commented_out = false;
}

abbrev pub value : String → List Directive → EnumValue
value name directives = record {
  name = Identifier_new name;
  directives = directives;
  documentation = none;
  span = Span_empty;
  commented_out = false;
}

abbrev pub color : Enum
color = record {
  name = Identifier_new "Color";
  values = value "Red" (directive "map" (argument "" "rouge" ∷ []) ∷ []) ∷ value "Blue" [] ∷ [];
  directives = directive "map" (argument "" "colors" ∷ []) ∷ [];
  documentation = none;
  span = Span_empty;
}

abbrev pub user : Model
user = record {
  name = Identifier_new "User";
  fields =
      field "id" "Int" (directive "id" [] ∷ directive "default" (argument "" "cuid" ∷ []) ∷ [])
      ∷ field "color" "Color" []
      ∷ [];
  directives =
      directive "unique" (argument "" "a" ∷ [])
      ∷ directive "map" (argument "name" "users" ∷ [])
      ∷ directive "unique" (argument "" "b" ∷ [])
      ∷ [];
  documentation = none;
  span = Span_empty;
  commented_out = false;
}

abbrev pub database : SourceConfig
database = record {
  name = Identifier_new "db";
  properties = argument "provider" "sqlite" ∷ argument "url" "file" ∷ [];
  documentation = none;
  span = Span_empty;
}

abbrev pub client : GeneratorConfig
client = record {
  name = Identifier_new "client";
  properties = [];
  documentation = none;
  span = Span_empty;
}

abbrev pub schema : SchemaAst
schema = record {
  tops =
      Top.generator client
      ∷ Top.model user
      ∷ Top.source database
      ∷ Top.enum color
      ∷ Top.type (field "Email" "String" (directive "unique" [] ∷ []))
      ∷ [];
}
