-- ===== src/Calculator/OtherModels.antt =====
-- The steps on fields and the models that they are not about: `apply_create_field`,
-- `apply_update_field` and `apply_delete_field` of
-- migration-engine/core/src/migration/datamodel_calculator.rs.
use mathlib.Core.Option
use prisma_engines.Prelude.{
  String, ◌≡◌, ◌≢◌, refl, Bool, true, false, Option, none, some, ◌==◌, ok, err, panic, ok_or,
  unwrap, ◌>>=◌, subst, ◌∙◌, Ref, via, find_mut, if◌then◌else◌, is_some, is_none, Option-cases, inl,
  inr,
}
use prisma_engines.Ast.Expression.{Expression}
use prisma_engines.Ast.Node.{Model, Field}
use prisma_engines.Ast.Schema.{
  SchemaAst, find_model, find_model_mut, find_field, find_field_mut, and_then, fields_ref,
}
use prisma_engines.Ast.Schema.Lens.{found_model_named}
use prisma_engines.Ast.Schema.Apart.{find_model-put}
use prisma_engines.Steps
use prisma_engines.Steps.{MigrationStep, create_field, update_field, delete_field}
use prisma_engines.Calculator.Errors.{Calculated, CalculatorError}
use prisma_engines.Calculator.Apply.{apply_step}
use prisma_engines.Calculator.Fields.{apply_create_field, apply_update_field, apply_delete_field}

-- The model of a step on a field.
abbrev pub field_step_model : MigrationStep → Option String
field_step_model (create_field step) = some step.model
field_step_model (update_field step) = some step.model
field_step_model (delete_field step) = some step.model
field_step_model _ = none

module _ (s : SchemaAst) (other : String) where
  -- Where there is a schema, it has the same model of the other name, or none.
  abbrev KeepsModel : Calculated SchemaAst → Type 0
  KeepsModel (ok t) = find_model t other ≡ find_model s other
  KeepsModel (err e) = Unit
  KeepsModel panic = Unit

  KeepsModel-if :
      (b : Bool) (e : CalculatorError) (x : Calculated SchemaAst)
      → KeepsModel x
      → KeepsModel (if b then err e else x)
  KeepsModel-if true e x h = tt
  KeepsModel-if false e x h = h

  KeepsModel-found :
      {A : Type 0} (o : Option A) (e : CalculatorError) (k : A → Calculated SchemaAst)
      → ((a : A) → KeepsModel (k a))
      → KeepsModel (ok_or o e >>= k)
  KeepsModel-found none e k h = tt
  KeepsModel-found (some a) e k h = h a

  module _ (name : String) (ne : other ≢ name) where
    -- The fields of the found model are written.
    module _ (change : Ref SchemaAst Model → Model)
        (named : (r : Ref SchemaAst Model)
          → ((change r).name.name == name) ≡ (r.value.name.name == name)) where
      written :
          (o : Option (Ref SchemaAst Model))
          → find_model_mut s name ≡ o
          → (e : CalculatorError) → KeepsModel (ok_or o e >>= λ r. ok (r.put (change r)))
      written none f e = tt
      written (some r) f e =
          find_model-put s name other r (change r) ne f (named r ∙ found_model_named s name r f)

      written_or_panic :
          (o : Option (Ref SchemaAst Model))
          → find_model_mut s name ≡ o
          → KeepsModel (unwrap o >>= λ r. ok (r.put (change r)))
      written_or_panic none f = tt
      written_or_panic (some r) f =
          find_model-put s name other r (change r) ne f (named r ∙ found_model_named s name r f)

    -- A field of the found model is written.
    field_written :
        (o : Option (Ref SchemaAst Model)) (field : String) (e : CalculatorError)
        (change : Ref SchemaAst Field → Field)
        → find_model_mut s name ≡ o
        → KeepsModel (
            ok_or
              (and_then o (λ m.
                Option.map
                  (λ r. via (via m (fields_ref m.value)) r)
                  (find_mut
                    (λ (model_field : Field). model_field.name.name == field)
                    m.value.fields)))
              e
            >>= λ r. ok (r.put (change r)))
    field_written none field e change f = tt
    field_written (some m) field e change f =
        elim (Option-cases
          (find_mut (λ (model_field : Field). model_field.name.name == field) m.value.fields)) [
            | inl n ↦ rw n tt
            | inr (q, g) ↦ rw g (
                find_model-put s name other m
                  (record (m.value) {
                    fields = q.put (change (via (via m (fields_ref m.value)) q));
                  })
                  ne f (found_model_named s name m f))
          ]

  create_keeps :
      (step : Steps.CreateField) → other ≢ step.model → KeepsModel (apply_create_field s step)
  unfolding apply_create_field
  create_keeps step ne =
      KeepsModel-if (is_some (find_field s step.model step.field)) _ _
        (written step.model ne _ (λ r. refl) (find_model_mut s step.model) refl _)

  update_keeps :
      (step : Steps.UpdateField) → other ≢ step.model → KeepsModel (apply_update_field s step)
  unfolding apply_update_field find_field_mut
  update_keeps step ne =
      KeepsModel-if (is_none (find_model s step.model)) _ _
        (field_written step.model ne (find_model_mut s step.model) step.field _ _ refl)

  delete_keeps :
      (step : Steps.DeleteField) → other ≢ step.model → KeepsModel (apply_delete_field s step)
  unfolding apply_delete_field
  delete_keeps step ne = KeepsModel-found (find_model s step.model) _ _ (λ m.
      KeepsModel-found (find_field s step.model step.field) _ _
        (λ f. written_or_panic step.model ne _ (λ r. refl) (find_model_mut s step.model) refl))

-- A step that creates, updates or deletes a field of a model and succeeds leaves the search for any
-- other model alone.
pub apply_step-find_model :
    (parse : String → Option Expression) (s t : SchemaAst) (step : MigrationStep)
    (model other : String)
    → field_step_model step ≡ some model
    → other ≢ model
    → apply_step parse s step ≡ ok t
    → find_model t other ≡ find_model s other
unfolding apply_step
apply_step-find_model parse s t (create_field step) model other m ne e =
    subst (KeepsModel s other) e
      (create_keeps s other step (λ q. ne (q ∙ Option.some-injective _ _ m)))
apply_step-find_model parse s t (update_field step) model other m ne e =
    subst (KeepsModel s other) e
      (update_keeps s other step (λ q. ne (q ∙ Option.some-injective _ _ m)))
apply_step-find_model parse s t (delete_field step) model other m ne e =
    subst (KeepsModel s other) e
      (delete_keeps s other step (λ q. ne (q ∙ Option.some-injective _ _ m)))
apply_step-find_model parse s t _ model other m ne e = cc
