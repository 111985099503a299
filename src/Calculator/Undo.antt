-- ===== src/Calculator/Undo.antt =====
-- A creation and the deletion of what was created:
-- migration-engine/core/src/migration/datamodel_calculator.rs.
use mathlib.Core.List.{filter_map}
use prisma_engines.Prelude.{
  String, ◌≡◌, ◌∙◌, true, Option, none, List, [], ◌∷◌, ◌++◌, append-nil, ◌==◌, eq_refl, ok, All,
  All-map, filter, filter-append, filter_self, find, Option-cases, Bool-cases, inl, inr,
}
use prisma_engines.Ast.Expression.{Expression}
use prisma_engines.Ast.Node.{Top}
use prisma_engines.Ast.Kind.{Kind, keeps, top_ref, model_kind, enum_kind, type_kind}
use prisma_engines.Ast.Schema.{SchemaAst, find_model, find_enum, find_type_alias}
use prisma_engines.Steps
use prisma_engines.Steps.{
  MigrationStep, create_model, delete_model, create_enum, delete_enum, create_type_alias,
  delete_type_alias,
}
use prisma_engines.Calculator.Apply.{apply, apply_step}
use prisma_engines.Calculator.Tops.{
  apply_create_model, apply_delete_model, apply_create_enum, apply_delete_enum,
  apply_create_type_alias, apply_delete_type_alias, new_model, new_enum, new_type_alias,
}
use prisma_engines.Roundtrip.Tops.{NoTop, find-last}

module _ {A : Type 0} (kind : Kind A) (name : String) where
  NoTop-of_find :
      (ts : List Top)
      → find (λ a. kind.ident a == name) (filter_map kind.view ts) ≡ none
      → NoTop kind name ts
  unfolding find filter_map
  NoTop-of_find [] h = tt
  NoTop-of_find (t ∷ ts) h = elim (Option-cases (kind.view t)) [
    | inl v ↦ (rw v, NoTop-of_find ts (rw v at h))
    | inr (a, v) ↦ elim (Bool-cases (kind.ident a == name)) [
      | inl e ↦ cc (rw (v, e) at h)
      | inr e ↦ (rw (v, e), NoTop-of_find ts (rw (v, e) at h))
    ]
  ]

  keeps_unnamed : (ts : List Top) → NoTop kind name ts → All (λ t. keeps kind name t ≡ true) ts
  keeps_unnamed ts h = All-map ts (λ t e. keep t e) h
    where
      keep : (t : Top) → top_ref kind name t ≡ none → keeps kind name t ≡ true
      keep t e = elim (Option-cases (kind.view t)) [
        | inl v ↦ rw v
        | inr (a, v) ↦ elim (Bool-cases (kind.ident a == name)) [
          | inl b ↦ cc (rw (v, b) at e)
          | inr b ↦ rw (v, b)
        ]
      ]

  -- Deleting the entry at the end leaves the entries before it.
  filter-last :
      (ts : List Top) (a : A)
      → NoTop kind name ts
      → (kind.ident a == name) ≡ true
      → filter (keeps kind name) (ts ++ kind.wrap a ∷ []) ≡ ts
  unfolding filter
  filter-last ts a h e =
      filter-append (keeps kind name) ts (kind.wrap a ∷ [])
      ∙ rw (kind.view-wrap a, e, filter_self (keeps kind name) ts (keeps_unnamed ts h))
          (append-nil ts)

module _ (parse : String → Option Expression) (s : SchemaAst) where
  -- Creating a model whose name no model has and deleting it again succeeds, and gives back the
  -- schema.
  pub delete-create_model :
      (name : String)
      → find_model s name ≡ none
      → apply parse s
          (create_model (record { model = name }) ∷ delete_model (record { model = name }) ∷ [])
        ≡ ok s
  unfolding apply apply_step apply_create_model apply_delete_model find_model
  delete-create_model name h = rw h (
      rw (
        find-last model_kind name s.tops absent (new_model name) (eq_refl name),
        filter-last model_kind name s.tops (new_model name) absent (eq_refl name),
      ))
    where
      absent : NoTop model_kind name s.tops
      absent = NoTop-of_find model_kind name s.tops h

  -- Creating an enum whose name no enum has, with any values, and deleting it again succeeds, and
  -- gives back the schema.
  pub delete-create_enum :
      (name : String) (values : List String)
      → find_enum s name ≡ none
      → apply parse s (
          create_enum (record { enum = name; values = values })
          ∷ delete_enum (record { enum = name })
          ∷ [])
        ≡ ok s
  unfolding apply apply_step apply_create_enum apply_delete_enum find_enum
  delete-create_enum name values h = rw h (
      rw (
        find-last enum_kind name s.tops absent (new_enum name values) (eq_refl name),
        filter-last enum_kind name s.tops (new_enum name values) absent (eq_refl name),
      ))
    where
      absent : NoTop enum_kind name s.tops
      absent = NoTop-of_find enum_kind name s.tops h

  -- Creating a type alias whose name no type alias has and deleting it again succeeds, and gives
  -- back the schema.
  pub delete-create_type_alias :
      (step : Steps.CreateTypeAlias)
      → find_type_alias s step.type_alias ≡ none
      → apply parse s (
          create_type_alias step ∷ delete_type_alias (record { type_alias = step.type_alias }) ∷ [])
        ≡ ok s
  unfolding apply apply_step apply_create_type_alias apply_delete_type_alias find_type_alias
  delete-create_type_alias step h = rw h (
      rw (
        find-last type_kind step.type_alias s.tops absent (new_type_alias step)
            (eq_refl step.type_alias),
        filter-last type_kind step.type_alias s.tops (new_type_alias step) absent
            (eq_refl step.type_alias),
      ))
    where
      absent : NoTop type_kind step.type_alias s.tops
      absent = NoTop-of_find type_kind step.type_alias s.tops h
