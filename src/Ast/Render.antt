-- ===== src/Ast/Render.antt =====
-- The text of an expression: `render_value_to_string` and what it calls, in
-- libs/datamodel/core/src/ast/renderer/{mod,string_builder}.rs. `none` stands for the panic of
-- `unimplemented!` at an expression of the kind `Any`.
use Prim.Native.Char.{code}
use Prim.Native.String as Text
use mathlib.Core.Option
use prisma_engines.Prelude.{
  ℕ, suc, String, ◌≡◌, refl, ap, ◌∙◌, fun_ext, Bool, true, false, ◌||◌, Option, none, some, List,
  [], ◌∷◌, ◌++◌, arith, nat_eq, if◌then◌else◌, is_none,
}
use prisma_engines.Ast.Span.{Span, Span_empty}
use prisma_engines.Ast.Expression.{
  Expression, numeric_value, boolean_value, string_value, any_value, constant_value, function,
  array, Expressions, nil, cons, with_lifted_span, with_lifted_spans,
}

-- `StringBuilder`: the texts written so far.
pub record StringBuilder : Type 0 where
  pub buffer : List String

unfoldable pub StringBuilder_new : StringBuilder
StringBuilder_new = record { buffer = [] }

unfoldable pub write : StringBuilder → String → StringBuilder
write target text = record { buffer = target.buffer ++ text ∷ [] }

-- `self.buffer.join("")`
unfoldable pub join : List String → String
join [] = ""
join (s ∷ ss) = Text.◌++◌ s (join ss)

-- `str::replace` of one character by a text.
unfoldable pub replace : ℕ → String → String → String
replace c by String.[] = ""
replace c by (String.◌∷◌ d s) =
    let rest = replace c by s in if nat_eq (code d) c then Text.◌++◌ by rest else String.◌∷◌ d rest

unfoldable pub render_str : StringBuilder → String → StringBuilder
unfolding write replace
render_str target param =
    write
      (write (write target "\"") (replace 10 "\\n" (replace 34 "\\\"" (replace 92 "\\\\" param))))
      "\""

abbrev then_render {ℓ} : {A : Type ℓ} → Option A → (A → Option A) → Option A
then_render none k = none
then_render (some a) k = k a

-- `render_array` and `render_func` walk their values with the index that decides on the comma.
unfoldable mutual
  unfolding write render_str

  pub render_value : Expression → StringBuilder → Option StringBuilder
  render_value (array vals _) target =
      then_render (render_values vals 0 (write target "[")) (λ t. some (write t "]"))
  render_value (boolean_value val _) target = some (write target val)
  render_value (constant_value val _) target = some (write target val)
  render_value (numeric_value val _) target = some (write target val)
  render_value (string_value val _) target = some (render_str target val)
  render_value (function name vals _) target =
      then_render (render_values vals 0 (write (write target name) "(")) (λ t. some (write t ")"))
  render_value (any_value _ _) target = none

  pub render_values : Expressions → ℕ → StringBuilder → Option StringBuilder
  render_values nil idx target = some target
  render_values (cons val vals) idx target =
      then_render (render_value val (if nat_eq idx 0 then target else write target ", "))
        (λ t. render_values vals (suc idx) t)

unfoldable pub render_value_to_string : Expression → Option String
unfolding StringBuilder_new join render_value
render_value_to_string val =
    Option.map (λ (builder : StringBuilder). join builder.buffer)
      (render_value val StringBuilder_new)

call_example : Expression
call_example =
    function "f"
      (cons (array (cons (string_value "a" s) (cons (string_value "b\"" s) nil)) s)
        (cons (numeric_value "8" s) nil))
      s
  where
    s : Span
    s = Span_empty

rendered_call : render_value_to_string call_example ≡ some "f([\"a\", \"b\\\"\"], 8)"
unfolding render_value_to_string call_example
rendered_call = refl

mutual
  unfolding render_value with_lifted_span

  render_value_lifted :
      (e : Expression) (n : ℕ) (t : StringBuilder)
      → render_value (with_lifted_span e n) t ≡ render_value e t
  render_value_lifted (array es s) n t = rw (render_values_lifted es n 0 (write t "["))
  render_value_lifted (function f es s) n t =
      rw (render_values_lifted es n 0 (write (write t f) "("))
  render_value_lifted (numeric_value v s) n t = refl
  render_value_lifted (boolean_value v s) n t = refl
  render_value_lifted (string_value v s) n t = refl
  render_value_lifted (any_value v s) n t = refl
  render_value_lifted (constant_value v s) n t = refl

  render_values_lifted :
      (es : Expressions) (n idx : ℕ) (t : StringBuilder)
      → render_values (with_lifted_spans es n) idx t ≡ render_values es idx t
  render_values_lifted nil n idx t = refl
  render_values_lifted (cons e es) n idx t =
      rw (render_value_lifted e n (if nat_eq idx 0 then t else write t ", ")) (
        ap (then_render (render_value e (if nat_eq idx 0 then t else write t ", ")))
          (fun_ext (λ t'. render_values_lifted es n (suc idx) t')))

-- The text of an expression does not depend on where the expression stands in its file.
pub render-with_lifted_span :
    (e : Expression) (n : ℕ)
    → render_value_to_string (with_lifted_span e n) ≡ render_value_to_string e
unfolding render_value_to_string
render-with_lifted_span e n = rw (render_value_lifted e n StringBuilder_new)

-- Whether an expression of the kind `Any` stands somewhere in an expression.
unfoldable mutual
  pub has_any : Expression → Bool
  has_any (any_value _ _) = true
  has_any (function _ vals _) = have_any vals
  has_any (array vals _) = have_any vals
  has_any _ = false

  pub have_any : Expressions → Bool
  have_any nil = false
  have_any (cons val vals) = has_any val || have_any vals

is_none-then {ℓ} :
    {A : Type ℓ} (o : Option A) (k : A → Option A) (b c : Bool)
    → is_none o ≡ b
    → ((a : A) → is_none (k a) ≡ c)
    → is_none (then_render o k) ≡ (b || c)
is_none-then none k b c h rest = ground (arith)
is_none-then (some a) k b c h rest = ground (arith, rest a)

is_none-map {ℓ κ} :
    {A : Type ℓ} {B : Type κ} (f : A → B) (o : Option A) → is_none (Option.map f o) ≡ is_none o
is_none-map f none = refl
is_none-map f (some a) = refl

or_false : (b : Bool) → (b || false) ≡ b
or_false true = refl
or_false false = refl

mutual
  unfolding render_value has_any

  render_value_panics :
      (e : Expression) (t : StringBuilder) → is_none (render_value e t) ≡ has_any e
  render_value_panics (array es s) t =
      is_none-then (render_values es 0 (write t "[")) (λ t'. some (write t' "]")) (have_any es)
        false (render_values_panic es 0 (write t "[")) (λ t'. refl)
      ∙ or_false (have_any es)
  render_value_panics (function f es s) t =
      is_none-then (render_values es 0 (write (write t f) "(")) (λ t'. some (write t' ")"))
        (have_any es) false (render_values_panic es 0 (write (write t f) "(")) (λ t'. refl)
      ∙ or_false (have_any es)
  render_value_panics (numeric_value v s) t = refl
  render_value_panics (boolean_value v s) t = refl
  render_value_panics (string_value v s) t = refl
  render_value_panics (any_value v s) t = refl
  render_value_panics (constant_value v s) t = refl

  render_values_panic :
      (es : Expressions) (idx : ℕ) (t : StringBuilder)
      → is_none (render_values es idx t) ≡ have_any es
  render_values_panic nil idx t = refl
  render_values_panic (cons e es) idx t =
      is_none-then (render_value e (if nat_eq idx 0 then t else write t ", "))
        (λ t'. render_values es (suc idx) t') (has_any e) (have_any es)
        (render_value_panics e (if nat_eq idx 0 then t else write t ", "))
        (λ t'. render_values_panic es (suc idx) t')

-- Rendering an expression panics exactly when an expression of the kind `Any` stands in it.
pub render_panics : (e : Expression) → is_none (render_value_to_string e) ≡ has_any e
unfolding render_value_to_string
render_panics e =
    is_none-map _ (render_value e StringBuilder_new) ∙ render_value_panics e StringBuilder_new
