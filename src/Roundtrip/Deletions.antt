-- ===== src/Roundtrip/Deletions.antt =====
-- The steps that delete all entries of a kind, applied to a schema that has these entries.
use mathlib.Core.List.{filter_map}
use prisma_engines.Prelude.{
  String, ◌≡◌, refl, sym, ap, ◌∙◌, Bool, true, not, Option, List, [], ◌∷◌, map, ◌==◌, eq_refl, ok,
  is_some, is_none, All-map, Unique, Absent, filter, filter_self, find, Option-cases, Bool-cases,
  inl, inr,
}
use prisma_engines.Ast.Expression.{Expression}
use prisma_engines.Ast.Node.{Top}
use prisma_engines.Ast.Kind.{Kind, keeps}
use prisma_engines.Steps.{MigrationStep}
use prisma_engines.Calculator.Apply.{apply, apply_step}

module _ {A : Type 0} (kind : Kind A) where
  -- The entry is not of the kind.
  abbrev pub is_other : Top → Bool
  is_other t = is_none (kind.view t)

  module _ (name : String) where
    abbrev other_name : A → Bool
    other_name a = not (kind.ident a == name)

    views_kept :
        (ts : List Top)
        → filter_map kind.view (filter (keeps kind name) ts)
          ≡ filter other_name (filter_map kind.view ts)
    unfolding filter filter_map
    views_kept [] = refl
    views_kept (t ∷ ts) = elim (Option-cases (kind.view t)) [
      | inl v ↦ rw (v, v) (views_kept ts)
      | inr (a, v) ↦ elim (Bool-cases (kind.ident a == name)) [
        | inl e ↦ rw (v, e) (views_kept ts)
        | inr e ↦ rw (v, e) (rw v (ap (◌∷◌ a) (views_kept ts)))
      ]
    ]

    others_kept :
        (ts : List Top) → filter is_other (filter (keeps kind name) ts) ≡ filter is_other ts
    unfolding filter
    others_kept [] = refl
    others_kept (t ∷ ts) = elim (Option-cases (kind.view t)) [
      | inl v ↦ rw (v, v) (ap (◌∷◌ t) (others_kept ts))
      | inr (a, v) ↦ elim (Bool-cases (kind.ident a == name)) [
        | inl e ↦ rw (v, e) (others_kept ts)
        | inr e ↦ rw (v, e) (rw v (others_kept ts))
      ]
    ]

  filter_first :
      (a : A) (rest : List A)
      → Absent kind.ident (kind.ident a) rest
      → filter (other_name (kind.ident a)) (a ∷ rest) ≡ rest
  unfolding filter
  filter_first a rest h =
      rw (eq_refl (kind.ident a))
        (filter_self (other_name (kind.ident a)) rest (All-map rest (λ b e. ap not e) h))

  no_views : (ts : List Top) → filter_map kind.view ts ≡ [] → filter is_other ts ≡ ts
  unfolding filter filter_map
  no_views [] h = refl
  no_views (t ∷ ts) h = elim (Option-cases (kind.view t)) [
    | inl v ↦ rw v (ap (◌∷◌ t) (no_views ts (rw v at h)))
    | inr (a, v) ↦ cc (rw v at h)
  ]

-- With a step that deletes one entry that is there, the entries of the kind are deleted one by one.
module _ (parse : String → Option Expression) {A : Type 0} (kind : Kind A)
    (delete : A → MigrationStep)
    (one : (ts : List Top) (a : A)
      → is_some (find (λ b. kind.ident b == kind.ident a) (filter_map kind.view ts)) ≡ true
      → apply_step parse (record { tops = ts }) (delete a)
        ≡ ok (record { tops = filter (keeps kind (kind.ident a)) ts })) where
  pub delete_all :
      (entries : List A) (ts : List Top)
      → filter_map kind.view ts ≡ entries
      → Unique kind.ident entries
      → apply parse (record { tops = ts }) (map delete entries)
        ≡ ok (record { tops = filter (is_other kind) ts })
  unfolding apply find
  delete_all [] ts e u = ap (λ us. ok (record { tops = us })) (sym (no_views kind ts e))
  delete_all (a ∷ entries) ts e u = rw (one ts a (rw e (rw (eq_refl (kind.ident a))))) (
      delete_all entries (filter (keeps kind (kind.ident a)) ts)
        (views_kept kind (kind.ident a) ts
          ∙ (ap (filter (other_name kind (kind.ident a))) e ∙ filter_first kind a entries u.0))
        u.1
      ∙ ap (λ us. ok (record { tops = us })) (others_kept kind (kind.ident a) ts))
