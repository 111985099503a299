-- ===== src/Roundtrip/Rebuilt.antt =====
-- The schema that steps can rebuild: spans, documentation, default values, comment marks and
-- generators are not in the steps, values are printed and parsed again, and the order of the kinds
-- of entries and of the directives of a model is that of the steps.
use mathlib.Core.Option
use prisma_engines.Prelude.{String, Option, ◌≡◌, true, false, none, List, ◌++◌, map, is_some, All}
use prisma_engines.Ast.Span.{Span_empty, Identifier_new}
use prisma_engines.Ast.Expression.{Expression}
use prisma_engines.Ast.Node.{Argument, Directive, Field, EnumValue, Enum, Model, SourceConfig, Top}
use prisma_engines.Ast.Schema.{SchemaAst}
use prisma_engines.Steps.Location.{to_ast_expression, from_ast_expression}
use prisma_engines.Differ.Models.{regular_directives, repeated_directives}
use prisma_engines.Differ.Top.{walk_type_aliases, walk_enums, walk_sources, walk_models}

module _ (P : Argument → Type 0) where
  abbrev pub AllArguments : List Directive → Type 0
  AllArguments = All (λ (d : Directive). All P d.arguments)

  -- All arguments of a schema have a property.
  pub record EachArgument (s : SchemaAst) : Type 0 where
    pub aliases : All (λ (f : Field). AllArguments f.directives) (walk_type_aliases s)
    pub enums : All (λ (e : Enum). AllArguments e.directives) (walk_enums s)
    pub values :
        All
          (λ (e : Enum). All (λ (v : EnumValue). AllArguments v.directives) e.values)
          (walk_enums s)
    pub sources : All (λ (c : SourceConfig). All P c.properties) (walk_sources s)
    pub fields :
        All (λ (m : Model). All (λ (f : Field). AllArguments f.directives) m.fields) (walk_models s)
    pub regular : All (λ (m : Model). AllArguments (regular_directives m)) (walk_models s)
    pub repeated : All (λ (m : Model). AllArguments (repeated_directives m)) (walk_models s)

module _ (parse : String → Option Expression) where
  -- The value of the argument is printed to a text that the parser reads.
  abbrev pub IsReadable : Argument → Type 0
  IsReadable a = is_some (to_ast_expression parse (from_ast_expression a.value)) ≡ true

  abbrev pub AllReadable : List Directive → Type 0
  AllReadable = AllArguments IsReadable

  abbrev pub SchemaReadable : SchemaAst → Type 0
  SchemaReadable = EachArgument IsReadable

  abbrev pub reread : Expression → Expression
  reread e = Option.get_or (to_ast_expression parse (from_ast_expression e)) e

  -- The value that the parser reads is printed to the same text again.
  abbrev pub PrintsBack : Argument → Type 0
  PrintsBack a = (from_ast_expression (reread a.value)).text ≡ (from_ast_expression a.value).text

  abbrev pub rebuilt_argument : Argument → Argument
  rebuilt_argument a = record {
    name = Identifier_new a.name.name;
    value = reread a.value;
    span = Span_empty;
  }

  abbrev pub rebuilt_directive : Directive → Directive
  rebuilt_directive d = record {
    name = Identifier_new d.name.name;
    arguments = map rebuilt_argument d.arguments;
    span = Span_empty;
  }

  abbrev pub rebuilt_field : Field → Field
  rebuilt_field f = record {
    field_type = Identifier_new f.field_type.name;
    name = Identifier_new f.name.name;
    arity = f.arity;
    default_value = none;
    directives = map rebuilt_directive f.directives;
    documentation = none;
    span = Span_empty;
    is_commented_out = false;
  }

  abbrev pub rebuilt_value : EnumValue → EnumValue
  rebuilt_value v = record {
    name = Identifier_new v.name.name;
    directives = map rebuilt_directive v.directives;
    documentation = none;
    span = Span_empty;
    commented_out = false;
  }

  abbrev pub rebuilt_enum : Enum → Enum
  rebuilt_enum e = record {
    name = Identifier_new e.name.name;
    values = map rebuilt_value e.values;
    directives = map rebuilt_directive e.directives;
    documentation = none;
    span = Span_empty;
  }

  abbrev pub rebuilt_source : SourceConfig → SourceConfig
  rebuilt_source c = record {
    name = Identifier_new c.name.name;
    properties = map rebuilt_argument c.properties;
    documentation = none;
    span = Span_empty;
  }

  abbrev pub rebuilt_model : Model → Model
  rebuilt_model m = record {
    name = Identifier_new m.name.name;
    fields = map rebuilt_field m.fields;
    directives =
        map rebuilt_directive (regular_directives m)
        ++ map rebuilt_directive (repeated_directives m);
    documentation = none;
    span = Span_empty;
    commented_out = false;
  }

  abbrev pub rebuilt : SchemaAst → SchemaAst
  rebuilt s = record {
    tops =
        map (λ f. Top.type (rebuilt_field f)) (walk_type_aliases s)
        ++ (map (λ e. Top.enum (rebuilt_enum e)) (walk_enums s)
            ++ (map (λ c. Top.source (rebuilt_source c)) (walk_sources s)
                ++ map (λ m. Top.model (rebuilt_model m)) (walk_models s)));
  }
