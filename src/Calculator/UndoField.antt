-- ===== src/Calculator/UndoField.antt =====
-- The creation and the deletion of a field: `apply_create_field` and `apply_delete_field` of
-- migration-engine/core/src/migration/datamodel_calculator.rs.
use prisma_engines.Prelude.{
  String, ◌≡◌, ap, ◌∙◌, Bool, false, not, Option, none, some, List, [], ◌∷◌, ◌++◌, append-nil, ◌==◌,
  eq_refl, ok, All, All-map, filter, filter-append, filter_self, find, find-append, Bool-cases, inl,
  inr, Ref,
}
use prisma_engines.Ast.Expression.{Expression}
use prisma_engines.Ast.Node.{Model, Field}
use prisma_engines.Ast.Schema.{SchemaAst, find_model, find_model_mut, find_field}
use prisma_engines.Ast.Schema.Lens.{find_model_mut-find_model, found_model_named}
use prisma_engines.Steps
use prisma_engines.Steps.{create_field, delete_field}
use prisma_engines.Calculator.Apply.{apply, apply_step}
use prisma_engines.Calculator.Fields.{apply_create_field, apply_delete_field, new_field}

All-find-none :
    {A : Type 0} (p : A → Bool) (xs : List A) → find p xs ≡ none → All (λ x. p x ≡ false) xs
unfolding find
All-find-none p [] h = tt
All-find-none p (x ∷ xs) h = elim (Bool-cases (p x)) [
  | inl e ↦ cc (rw e at h)
  | inr e ↦ (e, All-find-none p xs (rw e at h))
]

module _ (parse : String → Option Expression) (s : SchemaAst) (step : Steps.CreateField)
    (r : Ref SchemaAst Model) (found : find_model_mut s step.model ≡ some r)
    (absent : find_field s step.model step.field ≡ none) where
  named : Field → Bool
  named f = f.name.name == step.field

  abbrev with_field : Model
  with_field = record (r.value) { fields = r.value.fields ++ new_field step ∷ [] }

  found_again :
      (find_model (r.put with_field) step.model ≡ some with_field)
      × (find_model_mut (r.put with_field) step.model
          ≡ some (record { value = with_field; put = r.put }))
  found_again =
      let h = found_model_named s step.model r found in
      let again = find_model_mut-find_model s step.model r with_field found h in
      (
        (find_model_mut-find_model (r.put with_field) step.model
            (record { value = with_field; put = r.put }) with_field again.1.1 h).0,
        again.1.1,
      )

  no_field : All (λ f. named f ≡ false) r.value.fields
  unfolding find_field named
  no_field =
      All-find-none (λ (f : Field). f.name.name == step.field) r.value.fields
        (rw
          (find_model_mut-find_model s step.model r r.value found
            (found_model_named s step.model r found)).0
          at absent)

  field_found : find_field (r.put with_field) step.model step.field ≡ some (new_field step)
  unfolding find_field named
  field_found = rw (found_again.0) (
      find-append (λ (f : Field). f.name.name == step.field) r.value.fields (new_field step) []
        no_field (eq_refl step.field))

  field_removed :
      filter
        (λ (f : Field). not (f.name.name == step.field))
        (r.value.fields ++ new_field step ∷ [])
      ≡ r.value.fields
  unfolding named filter
  field_removed =
      filter-append (λ (f : Field). not (f.name.name == step.field)) r.value.fields
        (new_field step ∷ [])
      ∙ rw
          (
            filter_self (λ (f : Field). not (f.name.name == step.field)) r.value.fields
                (All-map r.value.fields (λ f e. ap not e) no_field),
            eq_refl step.field,
          )
          (append-nil r.value.fields)

  -- Creating a field in a model that is there, under a name that no field of the model has, and
  -- deleting it again succeeds and gives back the schema.
  pub delete-create_field :
      apply parse s
        (create_field step ∷ delete_field (record { model = step.model; field = step.field }) ∷ [])
      ≡ ok s
  unfolding apply apply_step apply_create_field apply_delete_field
  delete-create_field =
      rw (absent, found)
        (rw (found_again.0, field_found, found_again.1)
          (rw field_removed (
            ap ok
              (find_model_mut-find_model s step.model r r.value found
                (found_model_named s step.model r found)).1.0)))
