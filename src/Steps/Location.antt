-- ===== src/Steps/Location.antt =====
-- Where a step applies, and the values that it carries: the locations, paths, arguments and
-- expressions of migration-engine/connectors/migration-connector/src/steps.rs.
use mathlib.Core.Option
use prisma_engines.Prelude.{
  String, Bool, true, false, not, ◌&&◌, Option, none, some, List, ◌==◌, nat_eq, if◌then◌else◌,
  is_some, length, find, all,
}
use prisma_engines.Ast.Span.{Span_empty, Identifier_new}
use prisma_engines.Ast.Expression.{Expression}
use prisma_engines.Ast.Render.{render_value_to_string}
use prisma_engines.Ast.Node
use prisma_engines.Ast.Node.{Directive}

-- The text of an expression.
pub record MigrationExpression : Type 0 where
  pub text : String

-- Where the renderer panics, at the kind `Any`, which the repository only copies, never makes, the
-- model has the empty text.
unfoldable pub from_ast_expression : Expression → MigrationExpression
from_ast_expression expr = record { text = Option.get_or (render_value_to_string expr) "" }

-- `self.0.parse().unwrap()`, with the parser of expressions as a parameter. `none` is a parse error,
-- at which `unwrap` panics; so too in `into_ast_argument`.
unfoldable pub to_ast_expression :
    (String → Option Expression) → MigrationExpression → Option Expression
to_ast_expression parse e = parse e.text

pub data FieldArity : Type 0 where
  required optional list : FieldArity

unfoldable pub from_ast_arity : Node.FieldArity → FieldArity
from_ast_arity Node.FieldArity.required = required
from_ast_arity Node.FieldArity.optional = optional
from_ast_arity Node.FieldArity.list = list

unfoldable pub into_ast_arity : FieldArity → Node.FieldArity
into_ast_arity required = Node.FieldArity.required
into_ast_arity optional = Node.FieldArity.optional
into_ast_arity list = Node.FieldArity.list

pub record Argument : Type 0 where
  pub name : String
  pub value : MigrationExpression

unfoldable pub matches_ast_argument : Argument → Node.Argument → Bool
matches_ast_argument self argument =
    self.name == argument.name.name && self.value.text == (from_ast_expression argument.value).text

unfoldable pub from_ast_argument : Node.Argument → Argument
from_ast_argument arg = record { name = arg.name.name; value = from_ast_expression arg.value }

unfoldable pub into_ast_argument : (String → Option Expression) → Argument → Option Node.Argument
unfolding to_ast_expression
into_ast_argument parse self =
    Option.map
      (λ value. record { name = Identifier_new self.name; value = value; span = Span_empty })
      (to_ast_expression parse self.value)

pub data DirectivePath : Type 0 where
  field : String → String → DirectivePath
  model : String → Option (List Argument) → DirectivePath
  enum : String → DirectivePath
  enum_value : String → String → DirectivePath
  type_alias : String → DirectivePath

unfoldable pub set_arguments : DirectivePath → List Argument → DirectivePath
set_arguments (model m _) args = model m (some args)
set_arguments path _ = path

unfoldable pub arguments : DirectivePath → Option (List Argument)
arguments (model m args) = args
arguments _ = none

pub record DirectiveLocation : Type 0 where
  pub path : DirectivePath
  pub directive : String

abbrev matches_arguments : Option (List Argument) → Directive → Bool
matches_arguments none directive = true
matches_arguments (some args) directive =
    if not (nat_eq (length directive.arguments) (length args))
    then false
    else all
        (λ directive_argument.
          is_some
            (find (λ self_argument. matches_ast_argument self_argument directive_argument) args))
        directive.arguments

unfoldable pub matches_ast_directive : DirectiveLocation → Directive → Bool
unfolding arguments
matches_ast_directive self directive =
    if not (self.directive == directive.name.name)
    then false
    else matches_arguments (arguments self.path) directive

pub record SourceLocation : Type 0 where
  pub source : String

pub data ArgumentLocation : Type 0 where
  directive : DirectiveLocation → ArgumentLocation
  source : SourceLocation → ArgumentLocation

unfoldable pub into_argument_location : DirectiveLocation → ArgumentLocation
into_argument_location self = directive self

unfoldable pub source_into_argument_location : SourceLocation → ArgumentLocation
source_into_argument_location self = source self
