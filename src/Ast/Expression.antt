-- ===== src/Ast/Expression.antt =====
-- libs/datamodel/core/src/ast/expression.rs, without the parser that `FromStr` calls.
use prisma_engines.Prelude.{ℕ, String, Bool, false, ◌==◌}
use prisma_engines.Ast.Span.{Span, lift_span}

-- `Expressions` is `Vec<Expression>`.
mutual
  pub data Expression : Type 0 where
    numeric_value : String → Span → Expression
    boolean_value : String → Span → Expression
    string_value : String → Span → Expression
    any_value : String → Span → Expression
    constant_value : String → Span → Expression
    function : String → Expressions → Span → Expression
    array : Expressions → Span → Expression

  pub data Expressions : Type 0 where
    nil : Expressions
    cons : Expression → Expressions → Expressions

unfoldable mutual
  pub with_lifted_span : Expression → ℕ → Expression
  with_lifted_span (numeric_value v s) offset = numeric_value v (lift_span s offset)
  with_lifted_span (boolean_value v s) offset = boolean_value v (lift_span s offset)
  with_lifted_span (string_value v s) offset = string_value v (lift_span s offset)
  with_lifted_span (any_value v s) offset = any_value v (lift_span s offset)
  with_lifted_span (constant_value v s) offset = constant_value v (lift_span s offset)
  with_lifted_span (function v a s) offset =
      function v (with_lifted_spans a offset) (lift_span s offset)
  with_lifted_span (array v s) offset = array (with_lifted_spans v offset) (lift_span s offset)

  pub with_lifted_spans : Expressions → ℕ → Expressions
  with_lifted_spans nil offset = nil
  with_lifted_spans (cons e es) offset =
      cons (with_lifted_span e offset) (with_lifted_spans es offset)

unfoldable pub span : Expression → Span
span (numeric_value _ s) = s
span (boolean_value _ s) = s
span (string_value _ s) = s
span (any_value _ s) = s
span (constant_value _ s) = s
span (function _ _ s) = s
span (array _ s) = s

unfoldable pub is_env_expression : Expression → Bool
is_env_expression (function name _ _) = name == "env"
is_env_expression _ = false

unfoldable pub to_string : Expression → String
to_string (string_value x _) = x
to_string (numeric_value x _) = x
to_string (boolean_value x _) = x
to_string (constant_value x _) = x
to_string (function x _ _) = x
to_string (array _ _) = "(array)"
to_string (any_value x _) = x

unfoldable pub describe_value_type : Expression → String
describe_value_type (numeric_value _ _) = "numeric"
describe_value_type (boolean_value _ _) = "boolean"
describe_value_type (string_value _ _) = "string"
describe_value_type (constant_value _ _) = "literal"
describe_value_type (function _ _ _) = "functional"
describe_value_type (array _ _) = "array"
describe_value_type (any_value _ _) = "any"
