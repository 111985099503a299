-- ===== src/Differ/Repeated.antt =====
-- How a step finds a repeated directive of a model again: `matches_ast_directive` of
-- migration-engine/connectors/migration-connector/src/steps.rs against `directives_are_identical`
-- of migration-engine/core/src/migration/datamodel_differ/directives.rs.
use prisma_engines.Prelude.{
  ℕ, suc, String, ◌≡◌, refl, ap, ◌∙◌, Bool, false, not, ◌&&◌, none, List, [], ◌∷◌, map, ◌==◌,
  eq-sym, nat_eq, arith, if◌then◌else◌, is_some, length, find, all, fun_ext,
}
use prisma_engines.Ast.Node.{Argument, Directive}
use prisma_engines.Steps.Location.{
  DirectivePath, arguments, from_ast_argument, from_ast_expression, matches_ast_argument,
  matches_ast_directive, set_arguments,
}
use prisma_engines.Differ.Directives.{arguments_are_identical, directives_are_identical}
use prisma_engines.Differ.Push.{location_with_arguments}

length-map {ℓ κ} :
    {A : Type ℓ} {B : Type κ} (f : A → B) (xs : List A) → length (map f xs) ≡ length xs
length-map f [] = refl
length-map f (x ∷ xs) = ap suc (length-map f xs)

is_some-find-map {ℓ κ} :
    {A : Type ℓ} {B : Type κ} (p : B → Bool) (f : A → B) (xs : List A)
    → is_some (find p (map f xs)) ≡ is_some (find (λ x. p (f x)) xs)
unfolding find
is_some-find-map p f [] = refl
is_some-find-map p f (x ∷ xs) = ground (arith, is_some-find-map p f xs)

matches_argument :
    (a b : Argument) → matches_ast_argument (from_ast_argument a) b ≡ arguments_are_identical b a
unfolding matches_ast_argument from_ast_argument arguments_are_identical
matches_argument a b =
    ap (λ t. t && (from_ast_expression a.value).text == (from_ast_expression b.value).text)
      (eq-sym a.name.name b.name.name)
    ∙ ap (◌&&◌ (b.name.name == a.name.name))
        (eq-sym (from_ast_expression a.value).text (from_ast_expression b.value).text)

nat_eq-sym : (a b : ℕ) → nat_eq a b ≡ nat_eq b a
nat_eq-sym a b = ground arith

-- The location that a step carries for a repeated directive of a model matches exactly the
-- directives that the differ takes to be identical to it.
pub matches-identical :
    (model : String) (d e : Directive)
    → matches_ast_directive (location_with_arguments (DirectivePath.model model none) d) e
      ≡ directives_are_identical e d
unfolding matches_ast_directive set_arguments arguments directives_are_identical
matches-identical model d e =
    rw
      (
        eq-sym d.name.name e.name.name,
        length-map from_ast_argument d.arguments,
        fun_ext
            (λ a. is_some-find-map (λ b. matches_ast_argument b a) from_ast_argument d.arguments),
      )
      (ap
        (λ (p : Argument → Bool).
          if not (e.name.name == d.name.name)
          then false
          else if not (nat_eq (length e.arguments) (length d.arguments))
          then false
          else all p e.arguments)
        (fun_ext
          (λ a. ap (λ q. is_some (find q d.arguments)) (fun_ext (λ b. matches_argument b a)))))
