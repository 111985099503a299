-- ===== src/Examples/Rendering.antt =====
-- The expressions of libs/datamodel/core/src/ast/expression.rs at a concrete call.
use prisma_engines.Prelude.{◌≡◌, true, is_none, map}
use prisma_engines.Ast.Span.{Span_empty, Span_new}
use prisma_engines.Ast.Expression.{
  Expression, string_value, any_value, function, array, nil, cons, with_lifted_span,
}
use prisma_engines.Ast.Lifted.{spans, moved, erased, with_lifted_span-moved}
use prisma_engines.Ast.Render.{
  render_value_to_string, has_any, render-with_lifted_span, render_panics,
}

-- A call with an expression of the kind `Any` in an array.
abbrev call : Expression
call =
    function "f"
      (cons
        (array (cons (string_value "a" (Span_new 3 6)) (cons (any_value "?" Span_empty) nil))
          Span_empty)
        nil)
      Span_empty

with_lifted_span-moved_example :
    (spans (with_lifted_span call 3) ≡ map (moved 3) (spans call))
    × (erased (with_lifted_span call 3) ≡ erased call)
with_lifted_span-moved_example = with_lifted_span-moved call 3

render-with_lifted_span_example :
    render_value_to_string (with_lifted_span call 3) ≡ render_value_to_string call
render-with_lifted_span_example = render-with_lifted_span call 3

render_panics_example : is_none (render_value_to_string call) ≡ true
unfolding has_any
render_panics_example = render_panics call
