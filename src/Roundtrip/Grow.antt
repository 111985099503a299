-- ===== src/Roundtrip/Grow.antt =====
-- Steps that build a list inside a schema, entry by entry.
use mathlib.Core.List.{flat_map}
use prisma_engines.Prelude.{
  String, ◌≡◌, sym, ap, ◌∙◌, false, Option, some, List, [], ◌∷◌, ◌++◌, map, append-nil,
  append_assoc, ◌==◌, Ref, ok, ◌>>=◌, All, Absent, Unique, All-map, All-append, All-zip, eq-sym,
}
use prisma_engines.Ast.Expression.{Expression}
use prisma_engines.Ast.Schema.{SchemaAst}
use prisma_engines.Steps.{MigrationStep}
use prisma_engines.Calculator.Apply.{apply}
use prisma_engines.Calculator.Others.{apply-append}

-- The search finds, in each schema that `put` makes, the part that `put` put there.
pub record Focus {A : Type 0} (get : SchemaAst → Option (Ref SchemaAst A)) (put : A → SchemaAst)
    : Type 0 where
  pub at : (a : A) → get (put a) ≡ some (record { value = a; put = put })

-- What has been built does not have the names of what is still to be built.
module _ {A B : Type 0} (build : A → B) (ident : A → String) (ident' : B → String)
    (same : (a : A) → ident' (build a) ≡ ident a) where
  pub Absent-later :
      (bs : List B) (a : A) (new : List A)
      → All (λ x. Absent ident' (ident x) bs) new
      → Absent ident (ident a) new
      → All (λ x. Absent ident' (ident x) (bs ++ build a ∷ [])) new
  Absent-later bs a new old fresh =
      All-map new
        (λ x h.
          All-append (λ b. (ident' b == ident x) ≡ false) bs (build a ∷ []) h.0
            (ap (λ t. t == ident x) (same a) ∙ (eq-sym (ident a) (ident x) ∙ h.1), tt))
        (All-zip (λ x. Absent ident' (ident x) bs) (λ x. (ident x == ident a) ≡ false) new old
          fresh)

module _ (parse : String → Option Expression) where
  pub apply_both :
      (s t u : SchemaAst) (first second : List MigrationStep)
      → apply parse s first ≡ ok t
      → apply parse t second ≡ ok u
      → apply parse s (first ++ second) ≡ ok u
  apply_both s t u first second e f =
      apply-append parse s first second ∙ (ap (λ o. o >>= λ x. apply parse x second) e ∙ f)

  module _ {A B : Type 0} (build : A → B) (put : List B → SchemaAst)
      (steps : A → List MigrationStep) (P : A → Type 0) where
    longer :
        (bs : List B) (a : A) (new : List A)
        → (bs ++ build a ∷ []) ++ map build new ≡ bs ++ map build (a ∷ new)
    longer bs a new = append_assoc bs (build a ∷ []) (map build new)

    pub grow :
        ((bs : List B) (a : A)
          → P a
          → apply parse (put bs) (steps a) ≡ ok (put (bs ++ build a ∷ [])))
        → (bs : List B) (new : List A) → All P new
        → apply parse (put bs) (flat_map steps new) ≡ ok (put (bs ++ map build new))
    unfolding flat_map apply
    grow one bs [] h = ap (λ l. ok (put l)) (sym (append-nil bs))
    grow one bs (a ∷ new) h =
        apply_both (put bs) (put (bs ++ build a ∷ [])) _ (steps a) (flat_map steps new)
          (one bs a h.0)
          (grow one (bs ++ build a ∷ []) new h.1 ∙ ap (λ l. ok (put l)) (longer bs a new))

    module _ (ident : A → String) (ident' : B → String)
        (same : (a : A) → ident' (build a) ≡ ident a) where
      -- The same where a step refuses a name that is there.
      pub grow_unique :
          ((bs : List B) (a : A)
            → Absent ident' (ident a) bs
            → P a
            → apply parse (put bs) (steps a) ≡ ok (put (bs ++ build a ∷ [])))
          → (bs : List B) (new : List A) → All (λ x. Absent ident' (ident x) bs) new
          → Unique ident new
          → All P new
          → apply parse (put bs) (flat_map steps new) ≡ ok (put (bs ++ map build new))
      unfolding flat_map apply
      grow_unique one bs [] old u h = ap (λ l. ok (put l)) (sym (append-nil bs))
      grow_unique one bs (a ∷ new) old u h =
          apply_both (put bs) (put (bs ++ build a ∷ [])) _ (steps a) (flat_map steps new)
            (one bs a old.0 h.0)
            (grow_unique one (bs ++ build a ∷ []) new
                (Absent-later build ident ident' same bs a new old.1 u.0) u.1 h.1
              ∙ ap (λ l. ok (put l)) (longer bs a new))
