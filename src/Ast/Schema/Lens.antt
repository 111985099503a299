-- ===== src/Ast/Schema/Lens.antt =====
-- The mutable searches of libs/datamodel/core/src/ast/mod.rs beside the searches by value, and the
-- laws of the references that they return.
use mathlib.Core.Option
use mathlib.Core.Option.{some-injective}
use mathlib.Core.List.{filter_map}
use prisma_engines.Prelude.{
  String, ◌≡◌, refl, sym, ap, ◌∙◌, subst, true, Option, none, some, List, [], ◌∷◌, ◌==◌,
  if◌then◌else◌, inl, inr, Bool-cases, Option-cases, Ref, find, find_map_mut, find_map_mut-append,
  at_tail,
}
use prisma_engines.Ast.Node.{Top, Model, Enum}
use prisma_engines.Ast.Kind.{Kind, find_top_mut, top_ref, when_named, model_kind, enum_kind}
use prisma_engines.Ast.Schema.{
  SchemaAst, in_schema, find_model, find_model_mut, find_enum, find_enum_mut,
}
use prisma_engines.Ast.Schema.Located.{located}

module _ {A : Type 0} (kind : Kind A) (name : String) where
  value_of : Option (Ref (List Top) A) → Option A
  value_of = Option.map (λ r. r.value)

  value_of_tail :
      (t : Top) (o : Option (Ref (List Top) A)) → value_of (Option.map (at_tail t) o) ≡ value_of o
  unfolding value_of
  value_of_tail t none = refl
  value_of_tail t (some r) = refl

  -- Both searches stop at the same entry.
  value_of_found :
      (ts : List Top)
      → value_of (find_top_mut kind name ts)
        ≡ find (λ a. kind.ident a == name) (filter_map kind.view ts)
  unfolding find_map_mut find filter_map value_of
  value_of_found [] = refl
  value_of_found (t ∷ ts) = elim (Option-cases (kind.view t)) [
    | inl v ↦ rw v (value_of_tail t (find_top_mut kind name ts) ∙ value_of_found ts)
    | inr (a, v) ↦ elim (Bool-cases (kind.ident a == name)) [
      | inl e ↦ rw (v, e) refl
      | inr e ↦ rw (v, e) (value_of_tail t (find_top_mut kind name ts) ∙ value_of_found ts)
    ]
  ]

  module _ (ts : List Top) (r : Ref (List Top) A) (e : find_top_mut kind name ts ≡ some r) where
    pub find-value : find (λ a. kind.ident a == name) (filter_map kind.view ts) ≡ some r.value
    unfolding value_of
    find-value = sym (value_of_found ts) ∙ ap value_of e

    pub put-value : r.put r.value ≡ ts
    put-value =
        let l = located kind name ts r e in
        ap (λ (s : Ref (List Top) A). s.put s.value) l.ref_is ∙ sym l.tops_are

    pub found_named : (kind.ident r.value == name) ≡ true
    found_named =
        let l = located kind name ts r e in
        ap (λ (s : Ref (List Top) A). kind.ident s.value == name) l.ref_is ∙ l.named

    pub find_top_mut-put :
        (a : A)
        → (kind.ident a == name) ≡ true
        → find_top_mut kind name (r.put a) ≡ some (record { value = a; put = r.put })
    find_top_mut-put a h =
        let l = located kind name ts r e in
        subst
          (λ (s : Ref (List Top) A).
            find_top_mut kind name (s.put a) ≡ some (record { value = a; put = s.put }))
          (sym l.ref_is)
          (find_map_mut-append (top_ref kind name) l.before (kind.wrap a) l.after
            (record { value = a; put = kind.wrap }) l.missed
            (ap (when_named kind name) (kind.view-wrap a)
              ∙ ap (λ t. if t then some (record { value = a; put = kind.wrap }) else none) h))

  -- The same of a schema.
  module _ (s : SchemaAst) (r : Ref SchemaAst A)
      (e : Option.map in_schema (find_top_mut kind name s.tops) ≡ some r) (a : A)
      (h : (kind.ident a == name) ≡ true) where
    pub schema_lens :
        (find (λ b. kind.ident b == name) (filter_map kind.view s.tops) ≡ some r.value)
        × ((r.put r.value ≡ s)
            × (Option.map in_schema (find_top_mut kind name (r.put a).tops)
                ≡ some (record { value = a; put = r.put })))
    schema_lens = elim (Option-cases (find_top_mut kind name s.tops)) [
      | inl n ↦ cc (rw n at e)
      | inr (q, f) ↦
          subst
            (λ (t : Ref SchemaAst A).
              (find (λ b. kind.ident b == name) (filter_map kind.view s.tops) ≡ some t.value)
              × ((t.put t.value ≡ s)
                  × (Option.map in_schema (find_top_mut kind name (t.put a).tops)
                      ≡ some (record { value = a; put = t.put }))))
            (some-injective _ _ (rw f at e))
            (
              find-value s.tops q f,
              (
                ap (λ ts. record { tops = ts }) (put-value s.tops q f),
                ap (Option.map in_schema) (find_top_mut-put s.tops q f a h),
              ),
            )
    ]

pub found_model_named :
    (s : SchemaAst) (name : String) (r : Ref SchemaAst Model)
    → find_model_mut s name ≡ some r
    → (r.value.name.name == name) ≡ true
unfolding find_model_mut
found_model_named s name r e = elim (Option-cases (find_top_mut model_kind name s.tops)) [
  | inl n ↦ cc (rw n at e)
  | inr (q, f) ↦
      ap (λ (t : Ref SchemaAst Model). t.value.name.name == name)
        (sym (some-injective _ _ (rw f at e)))
      ∙ found_named model_kind name s.tops q f
]

-- A reference to a model that is found by its name holds the model that the search by value finds,
-- writing this model back changes nothing, and after a model of that name has been written, the
-- search finds a reference to it, which writes to the same place.
pub find_model_mut-find_model :
    (s : SchemaAst) (name : String) (r : Ref SchemaAst Model) (m : Model)
    → find_model_mut s name ≡ some r
    → (m.name.name == name) ≡ true
    → (find_model s name ≡ some r.value)
      × ((r.put r.value ≡ s)
          × (find_model_mut (r.put m) name ≡ some (record { value = m; put = r.put })))
unfolding find_model_mut find_model
find_model_mut-find_model s name r m e h = schema_lens model_kind name s r e m h

-- A reference to an enum that is found by its name holds the enum that the search by value finds,
-- writing this enum back changes nothing, and after an enum of that name has been written, the
-- search finds a reference to it, which writes to the same place.
pub find_enum_mut-find_enum :
    (s : SchemaAst) (name : String) (r : Ref SchemaAst Enum) (m : Enum)
    → find_enum_mut s name ≡ some r
    → (m.name.name == name) ≡ true
    → (find_enum s name ≡ some r.value)
      × ((r.put r.value ≡ s)
          × (find_enum_mut (r.put m) name ≡ some (record { value = m; put = r.put })))
unfolding find_enum_mut find_enum
find_enum_mut-find_enum s name r m e h = schema_lens enum_kind name s r e m h
