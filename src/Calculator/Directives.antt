-- ===== src/Calculator/Directives.antt =====
-- The steps on directives and on the arguments of directives and sources:
-- migration-engine/core/src/migration/datamodel_calculator.rs. The parser of expressions is a
-- parameter.
use mathlib.Core.Option
use prisma_engines.Prelude.{
  String, not, Option, none, some, List, [], ◌∷◌, ◌++◌, ◌==◌, if◌then◌else◌, filter, find_mut, Ref,
  via, ok, ok_or, unwrap, ◌>>=◌,
}
use prisma_engines.Ast.Expression.{Expression}
use prisma_engines.Ast.Node.{Argument, Directive, Field, Enum, EnumValue, Model, SourceConfig}
use prisma_engines.Ast.Schema.{
  SchemaAst, and_then, find_model_mut, find_field_mut, find_enum_mut, find_type_alias_mut,
  find_source_mut,
}
use prisma_engines.Steps.{
  CreateDirective, DeleteDirective, CreateArgument, UpdateArgument, DeleteArgument,
}
use prisma_engines.Steps.Location
use prisma_engines.Steps.Location.{
  DirectivePath, DirectiveLocation, ArgumentLocation, into_ast_argument, to_ast_expression,
  matches_ast_directive,
}
use prisma_engines.Calculator.Errors.{Calculated, create_directive_absent, delete_directive_absent}
use prisma_engines.Calculator.Tops.{new_span, new_ident}

-- `&mut node.directives` and `&mut node.values`, for the nodes that have them.
abbrev pub model_directives : Model → Ref Model (List Directive)
model_directives m = record { value = m.directives; put = λ ds. record m { directives = ds } }

abbrev pub field_directives : Field → Ref Field (List Directive)
field_directives f = record { value = f.directives; put = λ ds. record f { directives = ds } }

abbrev pub enum_directives : Enum → Ref Enum (List Directive)
enum_directives e = record { value = e.directives; put = λ ds. record e { directives = ds } }

abbrev pub value_directives : EnumValue → Ref EnumValue (List Directive)
value_directives v = record { value = v.directives; put = λ ds. record v { directives = ds } }

abbrev pub enum_values : Enum → Ref Enum (List EnumValue)
enum_values e = record { value = e.values; put = λ vs. record e { values = vs } }

unfoldable pub find_directives_mut :
    SchemaAst → DirectivePath → Option (Ref SchemaAst (List Directive))
find_directives_mut datamodel (DirectivePath.field m f) =
    Option.map (λ r. via r (field_directives r.value)) (find_field_mut datamodel m f)
find_directives_mut datamodel (DirectivePath.model m arguments) =
    Option.map (λ r. via r (model_directives r.value)) (find_model_mut datamodel m)
find_directives_mut datamodel (DirectivePath.enum e) =
    Option.map (λ r. via r (enum_directives r.value)) (find_enum_mut datamodel e)
find_directives_mut datamodel (DirectivePath.enum_value e value) =
    and_then (find_enum_mut datamodel e) (λ r.
      Option.map (λ v. via (via r (enum_values r.value)) (via v (value_directives v.value)))
        (find_mut (λ (value_struct : EnumValue). value_struct.name.name == value) r.value.values))
find_directives_mut datamodel (DirectivePath.type_alias t) =
    Option.map (λ r. via r (field_directives r.value)) (find_type_alias_mut datamodel t)

unfoldable pub find_directive_mut : SchemaAst → DirectiveLocation → Option (Ref SchemaAst Directive)
unfolding find_directives_mut
find_directive_mut datamodel locator = and_then (find_directives_mut datamodel locator.path) (λ r.
    Option.map (λ d. via r d)
      (find_mut (λ (directive : Directive). directive.name.name == locator.directive) r.value))

-- `ArgumentContainer`, by the list that its `arguments` and `set_arguments` reach.
abbrev pub source_arguments : SourceConfig → Ref SourceConfig (List Argument)
source_arguments sc = record {
  value = sc.properties;
  put = λ args. record sc { properties = args };
}

abbrev pub directive_arguments : Directive → Ref Directive (List Argument)
directive_arguments d = record { value = d.arguments; put = λ args. record d { arguments = args } }

unfoldable pub find_argument_container :
    SchemaAst → ArgumentLocation → Option (Ref SchemaAst (List Argument))
unfolding find_directive_mut
find_argument_container datamodel (ArgumentLocation.source location) =
    Option.map (λ r. via r (source_arguments r.value)) (find_source_mut datamodel location.source)
find_argument_container datamodel (ArgumentLocation.directive location) =
    Option.map (λ r. via r (directive_arguments r.value)) (find_directive_mut datamodel location)

unfoldable pub apply_delete_directive : SchemaAst → DeleteDirective → Calculated SchemaAst
unfolding find_directives_mut
apply_delete_directive datamodel step = do
  directives ←
      ok_or (find_directives_mut datamodel step.location.path) (delete_directive_absent step)
  ok (
      directives.put (
        filter (λ directive. not (matches_ast_directive step.location directive)) directives.value))

unfoldable pub apply_delete_directive_argument : SchemaAst → DeleteArgument → Calculated SchemaAst
unfolding find_argument_container
apply_delete_directive_argument datamodel step = do
  container ← unwrap (find_argument_container datamodel step.location)
  ok (container.put (filter (λ arg. not (arg.name.name == step.argument)) container.value))

-- Each function that may parse an expression.
module _ (parse : String → Option Expression) where
  unfoldable pub into_ast_arguments : List Location.Argument → Option (List Argument)
  into_ast_arguments [] = some []
  into_ast_arguments (arg ∷ args) =
      and_then (into_ast_argument parse arg)
        (λ first. Option.map (λ rest. first ∷ rest) (into_ast_arguments args))

  abbrev pub path_arguments : Option (List Location.Argument) → Option (List Argument)
  path_arguments none = some []
  path_arguments (some args) = into_ast_arguments args

  unfoldable pub apply_create_directive : SchemaAst → CreateDirective → Calculated SchemaAst
  unfolding find_directives_mut into_ast_arguments
  apply_create_directive datamodel step = do
    directives ←
        ok_or (find_directives_mut datamodel step.location.path) (create_directive_absent step)
    arguments ← unwrap (path_arguments (Location.arguments step.location.path))
    let new_directive : Directive = record {
      name = new_ident step.location.directive;
      arguments = arguments;
      span = new_span;
    }
    ok (directives.put (directives.value ++ new_directive ∷ []))

  unfoldable pub apply_create_directive_argument : SchemaAst → CreateArgument → Calculated SchemaAst
  unfolding find_argument_container
  apply_create_directive_argument datamodel step = do
    container ← unwrap (find_argument_container datamodel step.location)
    value ← unwrap (to_ast_expression parse step.value)
    let argument : Argument = record {
      name = new_ident step.argument;
      span = new_span;
      value = value;
    }
    ok (container.put (container.value ++ argument ∷ []))

  -- The loop over the arguments: the new value is parsed at each argument of the name.
  unfoldable pub update_arguments : UpdateArgument → List Argument → Option (List Argument)
  update_arguments step [] = some []
  update_arguments step (argument ∷ rest) =
      let updated : Option (List Argument) = update_arguments step rest in
      if argument.name.name == step.argument
      then and_then (to_ast_expression parse step.new_value)
          (λ value. Option.map (λ args. record argument { value = value } ∷ args) updated)
      else Option.map (λ args. argument ∷ args) updated

  unfoldable pub apply_update_directive_argument : SchemaAst → UpdateArgument → Calculated SchemaAst
  unfolding find_argument_container update_arguments
  apply_update_directive_argument datamodel step = do
    container ← unwrap (find_argument_container datamodel step.location)
    arguments ← unwrap (update_arguments step container.value)
    ok (container.put arguments)
