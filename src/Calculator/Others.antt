-- ===== src/Calculator/Others.antt =====
-- What steps leave alone, and the order in which they are applied:
-- migration-engine/core/src/migration/datamodel_calculator.rs.
use mathlib.Core.List.{filter_map}
use prisma_engines.Prelude.{
  String, ◌≡◌, refl, ◌∙◌, Option, none, some, List, [], ◌∷◌, ◌++◌, ok, ◌>>=◌, >>=-eq-ok, >>=_assoc,
  subst, sym, ap, fun_ext,
}
use prisma_engines.Ast.Expression.{Expression}
use prisma_engines.Ast.Node.{Top}
use prisma_engines.Ast.Schema.{SchemaAst, generators, as_generator}
use prisma_engines.Steps.{MigrationStep}
use prisma_engines.Calculator.Kinds.{EntryKind, enums, models, sources, types, step_kind}
use prisma_engines.Calculator.Unchanged.{Hides, Unchanged}
use prisma_engines.Calculator.Frame.{apply_step-Unchanged}
use prisma_engines.Calculator.Apply.{apply_step, apply}

-- The entries that are not of the kind.
abbrev pub unless_kind : EntryKind → Top → Option Top
unless_kind enums (Top.enum _) = none
unless_kind models (Top.model _) = none
unless_kind sources (Top.source _) = none
unless_kind types (Top.type _) = none
unless_kind _ top = some top

abbrev pub others : EntryKind → SchemaAst → List Top
others kind s = filter_map (unless_kind kind) s.tops

unless_kind-Hides : (k : EntryKind) → Hides (unless_kind k) k
unless_kind-Hides enums = λ a. refl
unless_kind-Hides models = λ a. refl
unless_kind-Hides sources = λ a. refl
unless_kind-Hides types = λ a. refl

as_generator-Hides : (k : EntryKind) → Hides as_generator k
as_generator-Hides enums = λ a. refl
as_generator-Hides models = λ a. refl
as_generator-Hides sources = λ a. refl
as_generator-Hides types = λ a. refl

module _ (parse : String → Option Expression) where
  -- A step that succeeds leaves every top-level entry that is not of the kind that the step is about
  -- as it was, and these entries in their order.
  pub apply_step-others :
      (s t : SchemaAst) (step : MigrationStep)
      → apply_step parse s step ≡ ok t
      → others (step_kind step) t ≡ others (step_kind step) s
  apply_step-others s t step e = subst (Unchanged (unless_kind (step_kind step)) s) e (
      apply_step-Unchanged (unless_kind (step_kind step)) parse s step
        (unless_kind-Hides (step_kind step)))

  apply_step-generators :
      (s t : SchemaAst) (step : MigrationStep)
      → apply_step parse s step ≡ ok t
      → generators t ≡ generators s
  unfolding generators
  apply_step-generators s t step e =
      subst (Unchanged as_generator s) e
        (apply_step-Unchanged as_generator parse s step (as_generator-Hides (step_kind step)))

  -- Whatever the steps are, the generators of the schema that results are those of the schema that
  -- they were applied to.
  pub apply-generators :
      (s t : SchemaAst) (steps : List MigrationStep)
      → apply parse s steps ≡ ok t
      → generators t ≡ generators s
  unfolding apply generators
  apply-generators s t [] e = cc
  apply-generators s t (step ∷ steps) e =
      let (u, first, rest) =
        >>=-eq-ok (apply_step parse s step) (λ next. apply parse next steps) e in
      apply-generators u t steps rest ∙ apply_step-generators s u step first

  -- Applying the steps of two lists one after the other is applying the first list and then, if it
  -- succeeds, the second: the errors and panics of the first are those of the whole.
  pub apply-append :
      (s : SchemaAst) (first second : List MigrationStep)
      → apply parse s (first ++ second) ≡ (apply parse s first >>= λ t. apply parse t second)
  unfolding apply
  apply-append s [] second = refl
  apply-append s (step ∷ steps) second =
      ap (◌>>=◌ (apply_step parse s step)) (fun_ext (λ t. apply-append t steps second))
      ∙ sym (
          >>=_assoc (apply_step parse s step) (λ t. apply parse t steps)
            (λ t. apply parse t second))
