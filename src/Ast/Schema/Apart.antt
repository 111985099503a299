-- ===== src/Ast/Schema/Apart.antt =====
-- What a write through a reference of libs/datamodel/core/src/ast/mod.rs leaves of the entries of
-- the same kind under other names.
use mathlib.Core.Option.{some-injective}
use mathlib.Core.List.{filter_map, filter_map-append}
use prisma_engines.Prelude.{
  String, ◌≡◌, ◌≢◌, sym, ap, ◌∙◌, Bool, true, false, some, List, [], ◌∷◌, ◌++◌, ◌==◌, inl, inr,
  Option-cases, Ref, find, arith, eq_iff, if◌then◌else◌,
}
use prisma_engines.Ast.Node.{Top, Model}
use prisma_engines.Ast.Kind.{Kind, find_top_mut, model_kind}
use prisma_engines.Ast.Schema.{SchemaAst, find_model, find_model_mut}
use prisma_engines.Ast.Schema.Located.{located}

-- A name that is another name's text is not a third one.
named_apart : (x name other : String) → (x == name) ≡ true → other ≢ name → (x == other) ≡ false
named_apart x name other h ne = ground (arith, eq_iff x name, eq_iff x other)

find-skip :
    {A : Type 0} (p : A → Bool) (xs : List A) (y : A) (ys : List A)
    → p y ≡ false
    → find p (xs ++ y ∷ ys) ≡ find p (xs ++ ys)
unfolding find
find-skip p [] y ys h = rw h
find-skip p (x ∷ xs) y ys h = ap (λ o. if p x then some x else o) (find-skip p xs y ys h)

module _ {A : Type 0} (kind : Kind A) (name other : String) (ne : other ≢ name) where
  find-around :
      (before after : List Top) (a : A)
      → (kind.ident a == name) ≡ true
      → find (λ b. kind.ident b == other) (filter_map kind.view (before ++ kind.wrap a ∷ after))
        ≡ find
            (λ b. kind.ident b == other)
            (filter_map kind.view before ++ filter_map kind.view after)
  unfolding filter_map
  find-around before after a h =
      ap (find (λ b. kind.ident b == other))
        (filter_map-append kind.view before (kind.wrap a ∷ after))
      ∙ rw (kind.view-wrap a) (
          find-skip (λ b. kind.ident b == other) (filter_map kind.view before) a
            (filter_map kind.view after) (named_apart (kind.ident a) name other h ne))

  find-put :
      (ts : List Top) (r : Ref (List Top) A) (a : A)
      → find_top_mut kind name ts ≡ some r
      → (kind.ident a == name) ≡ true
      → find (λ b. kind.ident b == other) (filter_map kind.view (r.put a))
        ≡ find (λ b. kind.ident b == other) (filter_map kind.view ts)
  find-put ts r a e h =
      let l = located kind name ts r e in
      ap
        (λ (s : Ref (List Top) A).
          find (λ b. kind.ident b == other) (filter_map kind.view (s.put a)))
        l.ref_is
      ∙ (find-around l.before l.after a h
          ∙ (sym (find-around l.before l.after l.entry l.named)
              ∙ ap (λ us. find (λ b. kind.ident b == other) (filter_map kind.view us))
                  (sym l.tops_are)))

-- Writing a model of the same name through a reference leaves the search for other models alone.
pub find_model-put :
    (s : SchemaAst) (name other : String) (r : Ref SchemaAst Model) (m : Model)
    → other ≢ name
    → find_model_mut s name ≡ some r
    → (m.name.name == name) ≡ true
    → find_model (r.put m) other ≡ find_model s other
unfolding find_model_mut find_model
find_model-put s name other r m ne e h = elim (Option-cases (find_top_mut model_kind name s.tops)) [
  | inl n ↦ cc (rw n at e)
  | inr (q, f) ↦
      ap
        (λ (t : Ref SchemaAst Model).
          find (λ b. b.name.name == other) (filter_map model_kind.view (t.put m).tops))
        (sym (some-injective _ _ (rw f at e)))
      ∙ find-put model_kind name other ne s.tops q m f h
]
