-- ===== src/Roundtrip/EnumValues.antt =====
-- The steps for an enum that gets a new value with a directive: `push_updated_enums` of
-- migration-engine/core/src/migration/datamodel_differ.rs and `apply_create_directive` of
-- datamodel_calculator.rs beside it.
use mathlib.Core.List.{flat_map}
use prisma_engines.Prelude.{
  String, ◌≡◌, refl, Bool, true, Option, none, some, List, [], ◌∷◌, Ref, err, ◌==◌, find, find_mut,
  find_map_mut, filter, is_none, Bool-cases, inl, inr,
}
use prisma_engines.Ast.Expression.{Expression}
use prisma_engines.Ast.Node.{Directive, EnumValue, Enum}
use prisma_engines.Ast.Schema.{SchemaAst, find_enum_mut}
use prisma_engines.Steps.Location.{DirectivePath}
use prisma_engines.Calculator.Errors.{create_directive_absent}
use prisma_engines.Calculator.Apply.{apply, apply_step}
use prisma_engines.Calculator.Directives.{apply_create_directive, find_directives_mut}
use prisma_engines.Differ.Pairs.{Pair, created}
use prisma_engines.Differ.Enums
use prisma_engines.Differ.Push.{push_created_directive, push_created_directives}
use prisma_engines.Differ.PushTypes.{push_updated_enum}

module _ {A : Type 0} (p : A → Bool) where
  filter-head : (xs : List A) {y : A} {ys : List A} → filter p xs ≡ y ∷ ys → p y ≡ true
  unfolding filter
  filter-head [] h = cc
  filter-head (x ∷ xs) h = elim (Bool-cases (p x)) [
    | inl e ↦ cc (rw e at h)
    | inr e ↦ filter-head xs (rw e at h)
  ]

  find_mut-none : (xs : List A) → is_none (find p xs) ≡ true → find_mut p xs ≡ none
  unfolding find find_mut find_map_mut
  find_mut-none [] h = refl
  find_mut-none (x ∷ xs) h = elim (Bool-cases (p x)) [
    | inl e ↦ cc (rw e at h)
    | inr e ↦ rw (e, find_mut-none xs (rw e at h))
  ]

-- The place of a created value's directives is not in the schema.
path_missing :
    (s : SchemaAst) (p : Pair Enum) (r : Ref SchemaAst Enum) (v : EnumValue) (vs : List EnumValue)
    → find_enum_mut s p.next.name.name ≡ some r
    → r.value ≡ p.previous
    → Enums.created_values p ≡ v ∷ vs
    → find_directives_mut s (DirectivePath.enum_value p.next.name.name v.name.name) ≡ none
unfolding find_directives_mut Enums.created_values created Enums.values_match
path_missing s p r v vs f same c =
    rw (f, same)
      (rw
        (find_mut-none (λ (w : EnumValue). w.name.name == v.name.name) p.previous.values
          (filter-head _ p.next.values c))
        refl)

-- If the schema has the previous version of an enum under the name of its next version, and the
-- first value that the next version adds has a directive, then applying the steps for the enum fails,
-- at their first step: it creates the first directive of that value, which does not exist yet.
pub created_value_directive_fails :
    (parse : String → Option Expression) (s : SchemaAst) (p : Pair Enum) (r : Ref SchemaAst Enum)
    (v : EnumValue) (vs : List EnumValue) (d : Directive) (ds : List Directive)
    → find_enum_mut s p.next.name.name ≡ some r
    → r.value ≡ p.previous
    → Enums.created_values p ≡ v ∷ vs
    → v.directives ≡ d ∷ ds
    → apply parse s (push_updated_enum p)
      ≡ err (
          create_directive_absent (record {
            location = record {
              path = DirectivePath.enum_value p.next.name.name v.name.name;
              directive = d.name.name;
            };
          }))
unfolding apply apply_step apply_create_directive push_updated_enum push_created_directives
    push_created_directive flat_map
created_value_directive_fails parse s p r v vs d ds f same c e =
    rw (c, e, path_missing s p r v vs f same c) refl
