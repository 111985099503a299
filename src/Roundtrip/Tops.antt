-- ===== src/Roundtrip/Tops.antt =====
-- An entry at the end of the top-level entries, behind entries that are not of its kind and name.
use mathlib.Core.List.{flat_map, map-map, filter_map, filter_map-append}
use prisma_engines.Prelude.{
  String, ◌≡◌, sym, ap, ◌∙◌, Bool, true, false, Option, none, some, List, [], ◌∷◌, ◌++◌, map,
  append_assoc, map-append, ◌==◌, if◌then◌else◌, append-nil, ok, Unique, All_of, All, All-append,
  All-map, Absent, Option-cases, Bool-cases, inl, inr, find, find_map_mut-append, find-append,
  find-none,
}
use prisma_engines.Ast.Node.{Top}
use prisma_engines.Ast.Kind.{Kind, find_top_mut, top_ref, when_named}
use prisma_engines.Ast.Expression.{Expression}
use prisma_engines.Steps.{MigrationStep}
use prisma_engines.Calculator.Apply.{apply}
use prisma_engines.Roundtrip.Grow.{grow_unique}
use prisma_engines.Ast.Schema.{SchemaAst}

-- No entry is of the kind and the name.
abbrev pub NoTop : {A : Type 0} → Kind A → String → List Top → Type 0
NoTop kind name = All (λ t. top_ref kind name t ≡ none)

-- The state while entries of a kind are created behind others.
abbrev pub behind : {A : Type 0} → Kind A → List Top → List A → SchemaAst
behind kind before entries = record { tops = before ++ map kind.wrap entries }

module _ {A : Type 0} (kind : Kind A) where
  abbrev named : String → A → Bool
  named name a = kind.ident a == name

  no_view :
      (name : String) (before : List Top)
      → All (λ t. kind.view t ≡ none) before
      → NoTop kind name before
  no_view name before h = All-map before (λ t e. ap (when_named kind name) e) h

  no_entry :
      (name : String) (entries : List A)
      → Absent kind.ident name entries
      → NoTop kind name (map kind.wrap entries)
  no_entry name [] h = tt
  no_entry name (a ∷ entries) h = (
    ap (when_named kind name) (kind.view-wrap a)
        ∙ ap (λ t. if t then some (record { value = a; put = kind.wrap }) else none) h.0,
    no_entry name entries h.1,
  )

  pub NoTop-behind :
      (name : String) (before : List Top) (entries : List A)
      → All (λ t. kind.view t ≡ none) before
      → Absent kind.ident name entries
      → NoTop kind name (before ++ map kind.wrap entries)
  NoTop-behind name before entries h k =
      All-append (λ t. top_ref kind name t ≡ none) before (map kind.wrap entries)
        (no_view name before h) (no_entry name entries k)

  pub behind-append :
      (before : List Top) (entries : List A) (a : A)
      → (before ++ map kind.wrap entries) ++ kind.wrap a ∷ []
        ≡ before ++ map kind.wrap (entries ++ a ∷ [])
  behind-append before entries a =
      append_assoc before (map kind.wrap entries) (kind.wrap a ∷ [])
      ∙ ap (◌++◌ before) (sym (map-append kind.wrap entries (a ∷ [])))

  module _ (name : String) where
    absent_views :
        (ts : List Top)
        → NoTop kind name ts
        → All (λ a. named name a ≡ false) (filter_map kind.view ts)
    unfolding filter_map
    absent_views [] h = tt
    absent_views (t ∷ ts) h = elim (Option-cases (kind.view t)) [
      | inl v ↦ rw v (absent_views ts h.1)
      | inr (a, v) ↦ rw v (elim (Bool-cases (named name a)) [
        | inl e ↦ cc (rw (v, e) at h.0)
        | inr e ↦ (e, absent_views ts h.1)
      ])
    ]

    pub find-NoTop :
        (ts : List Top) → NoTop kind name ts → find (named name) (filter_map kind.view ts) ≡ none
    find-NoTop ts h = find-none (named name) (filter_map kind.view ts) (absent_views ts h)

    module _ (ts : List Top) (h : NoTop kind name ts) (a : A) (e : named name a ≡ true) where
      pub find-last : find (named name) (filter_map kind.view (ts ++ kind.wrap a ∷ [])) ≡ some a
      unfolding filter_map
      find-last =
          rw (filter_map-append kind.view ts (kind.wrap a ∷ []), kind.view-wrap a)
            (find-append (named name) (filter_map kind.view ts) a [] (absent_views ts h) e)

      pub find_top_mut-last :
          find_top_mut kind name (ts ++ kind.wrap a ∷ [])
          ≡ some (record { value = a; put = λ b. ts ++ kind.wrap b ∷ [] })
      find_top_mut-last =
          find_map_mut-append (top_ref kind name) ts (kind.wrap a) []
            (record { value = a; put = kind.wrap }) h
            (ap (when_named kind name) (kind.view-wrap a)
              ∙ ap (λ t. if t then some (record { value = a; put = kind.wrap }) else none) e)

-- Steps for all entries of a kind, behind entries of other kinds.
module _ (parse : String → Option Expression) {A : Type 0} (kind : Kind A) (build : A → A)
    (steps : A → List MigrationStep) (P : A → Type 0)
    (same : (a : A) → kind.ident (build a) ≡ kind.ident a)
    (one : (ts : List Top) (a : A)
      → NoTop kind (kind.ident a) ts
      → P a
      → apply parse (record { tops = ts }) (steps a)
        ≡ ok (record { tops = ts ++ kind.wrap (build a) ∷ [] })) where
  pub create_all :
      (before : List Top) (new : List A)
      → All (λ t. kind.view t ≡ none) before
      → Unique kind.ident new
      → All P new
      → apply parse (record { tops = before }) (flat_map steps new)
        ≡ ok (record { tops = before ++ map (λ a. kind.wrap (build a)) new })
  create_all before new hidden u h =
      ap (λ ts. apply parse (record { tops = ts }) (flat_map steps new)) (sym (append-nil before))
      ∙ (grow_unique parse build (behind kind before) steps P kind.ident kind.ident same
            (λ bs a absent p.
              one (before ++ map kind.wrap bs) a
                (NoTop-behind kind (kind.ident a) before bs hidden absent) p
              ∙ ap (λ ts. ok (record { tops = ts })) (behind-append kind before bs (build a)))
            [] new (All_of new (λ a. tt)) u h
          ∙ ap (λ ts. ok (record { tops = before ++ ts })) (map-map kind.wrap build new))
