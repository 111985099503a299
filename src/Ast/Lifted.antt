-- ===== src/Ast/Lifted.antt =====
-- What lifting does to the spans of an expression: libs/datamodel/core/src/ast/expression.rs and
-- span.rs.
use prisma_engines.Prelude.{ℕ, ◌+◌, ◌≡◌, refl, ap, sym, List, [], ◌∷◌, ◌++◌, map, map-append}
use prisma_engines.Ast.Span.{Span, Span_empty, lift_span}
use prisma_engines.Ast.Expression.{
  Expression, numeric_value, boolean_value, string_value, any_value, constant_value, function,
  array, Expressions, nil, cons, with_lifted_span, with_lifted_spans,
}

-- Both ends of a span, moved.
abbrev pub moved : ℕ → Span → Span
moved offset span = record { start = offset + span.start; end = offset + span.end }

abbrev mutual
  -- The spans of an expression and of the expressions in it, from the outside to the inside.
  pub spans : Expression → List Span
  spans (numeric_value v s) = s ∷ []
  spans (boolean_value v s) = s ∷ []
  spans (string_value v s) = s ∷ []
  spans (any_value v s) = s ∷ []
  spans (constant_value v s) = s ∷ []
  spans (function v es s) = s ∷ spans_of_all es
  spans (array es s) = s ∷ spans_of_all es

  pub spans_of_all : Expressions → List Span
  spans_of_all nil = []
  spans_of_all (cons e es) = spans e ++ spans_of_all es

  -- The expression without its spans.
  pub erased : Expression → Expression
  erased (numeric_value v s) = numeric_value v Span_empty
  erased (boolean_value v s) = boolean_value v Span_empty
  erased (string_value v s) = string_value v Span_empty
  erased (any_value v s) = any_value v Span_empty
  erased (constant_value v s) = constant_value v Span_empty
  erased (function v es s) = function v (all_erased es) Span_empty
  erased (array es s) = array (all_erased es) Span_empty

  pub all_erased : Expressions → Expressions
  all_erased nil = nil
  all_erased (cons e es) = cons (erased e) (all_erased es)

mutual
  unfolding with_lifted_span lift_span

  spans-moved : (e : Expression) (n : ℕ) → spans (with_lifted_span e n) ≡ map (moved n) (spans e)
  spans-moved (function v es s) n = ap (λ l. moved n s ∷ l) (spans_of_all-moved es n)
  spans-moved (array es s) n = ap (λ l. moved n s ∷ l) (spans_of_all-moved es n)
  spans-moved _ n = refl

  spans_of_all-moved :
      (es : Expressions) (n : ℕ)
      → spans_of_all (with_lifted_spans es n) ≡ map (moved n) (spans_of_all es)
  spans_of_all-moved nil n = refl
  spans_of_all-moved (cons e es) n =
      rw (spans-moved e n, spans_of_all-moved es n)
        (sym (map-append (moved n) (spans e) (spans_of_all es)))

mutual
  unfolding with_lifted_span

  content_kept : (e : Expression) (n : ℕ) → erased (with_lifted_span e n) ≡ erased e
  content_kept (function v es s) n = ap (λ l. function v l Span_empty) (all_content_kept es n)
  content_kept (array es s) n = ap (λ l. array l Span_empty) (all_content_kept es n)
  content_kept _ n = refl

  all_content_kept :
      (es : Expressions) (n : ℕ) → all_erased (with_lifted_spans es n) ≡ all_erased es
  all_content_kept nil n = refl
  all_content_kept (cons e es) n = rw (content_kept e n, all_content_kept es n) refl

-- In a lifted expression each span, of the expression and of those in it, is the one at its place
-- with both ends moved by the offset; all else of the expression is kept.
pub with_lifted_span-moved :
    (e : Expression) (n : ℕ)
    → (spans (with_lifted_span e n) ≡ map (moved n) (spans e))
      × (erased (with_lifted_span e n) ≡ erased e)
with_lifted_span-moved e n = (spans-moved e n, content_kept e n)
