-- ===== src/Roundtrip/RebuiltAlike.antt =====
-- The entries of a rebuilt schema beside those that they were built for.
use mathlib.Core.List.{filter_map}
use prisma_engines.Prelude.{
  String, ◌≡◌, refl, ap, ◌∙◌, subst, sym, Bool, true, false, not, Option, none, some, List, [], ◌∷◌,
  map, append-nil, All, All-map, filter, filter-append, filter_self, filter-nil, Pairwise,
  Pairwise-map, Bool-cases, inl, inr,
}
use prisma_engines.Ast.Expression.{Expression}
use prisma_engines.Ast.Node.{Argument, Directive, Field, EnumValue, Enum, Model, SourceConfig}
use prisma_engines.Differ.Alike.{
  ArgumentAlike, DirectiveAlike, DirectivesAlike, FieldAlike, ValueAlike, EnumAlike, SourceAlike,
  ModelAlike,
}
use prisma_engines.Differ.Models.{
  directive_is_regular, directive_is_repeated, regular_directives, repeated_directives,
}
use prisma_engines.Roundtrip.Rebuilt.{
  AllArguments, PrintsBack, rebuilt_argument, rebuilt_directive, rebuilt_field, rebuilt_value,
  rebuilt_enum, rebuilt_source, rebuilt_model,
}

module _ {A : Type 0} (p : A → Bool) where
  All-filter : (xs : List A) → All (λ a. p a ≡ true) (filter p xs)
  unfolding filter
  All-filter [] = tt
  All-filter (x ∷ xs) = elim (Bool-cases (p x)) [
    | inl e ↦ rw e (e, All-filter xs)
    | inr e ↦ rw e (All-filter xs)
  ]

module _ {A B : Type 0} where
  pub All-mapped :
      (P : B → Type 0) (f : A → B) (xs : List A) → All (λ a. P (f a)) xs → All P (map f xs)
  All-mapped P f [] h = tt
  All-mapped P f (x ∷ xs) h = (h.0, All-mapped P f xs h.1)

  pub filter_map-some :
      {C : Type 0} (g : B → Option C) (f : A → B) (k : A → C) (xs : List A)
      → ((a : A) → g (f a) ≡ some (k a))
      → filter_map g (map f xs) ≡ map k xs
  unfolding filter_map
  filter_map-some g f k [] h = refl
  filter_map-some g f k (x ∷ xs) h = rw (h x) (ap (◌∷◌ (k x)) (filter_map-some g f k xs h))

  pub filter_map-none :
      {C : Type 0} (g : B → Option C) (f : A → B) (xs : List A)
      → ((a : A) → g (f a) ≡ none)
      → filter_map g (map f xs) ≡ []
  unfolding filter_map
  filter_map-none g f [] h = refl
  filter_map-none g f (x ∷ xs) h = rw (h x) (filter_map-none g f xs h)

not-true : {b : Bool} → not b ≡ true → b ≡ false
not-true {b = true} h = cc
not-true {b = false} h = refl

-- One half of a list of directives, kept after the other half has been put behind or before it.
module _ {A B : Type 0} (p : A → Bool) (q : B → Bool) (f : A → B)
    (same : (a : A) → q (f a) ≡ p a) where
  kept : (xs : List A) → All (λ a. p a ≡ true) xs → filter q (map f xs) ≡ map f xs
  kept xs h =
      filter_self q (map f xs)
        (All-mapped (λ b. q b ≡ true) f xs (All-map xs (λ a e. same a ∙ e) h))

  dropped : (xs : List A) → All (λ a. p a ≡ false) xs → filter q (map f xs) ≡ []
  dropped xs h =
      filter-nil q (map f xs)
        (All-mapped (λ b. q b ≡ false) f xs (All-map xs (λ a e. same a ∙ e) h))

module _ (parse : String → Option Expression) where
  argument_alike : (a : Argument) → PrintsBack parse a → ArgumentAlike (rebuilt_argument parse a) a
  argument_alike a h = record { same_name = refl; same_text = h }

  arguments_alike :
      (xs : List Argument)
      → All (PrintsBack parse) xs
      → Pairwise ArgumentAlike (map (rebuilt_argument parse) xs) xs
  arguments_alike xs h =
      Pairwise-map ArgumentAlike (rebuilt_argument parse) xs (All-map xs argument_alike h)

  directives_alike :
      (ds : List Directive)
      → AllArguments (PrintsBack parse) ds
      → DirectivesAlike (map (rebuilt_directive parse) ds) ds
  directives_alike ds h =
      Pairwise-map DirectiveAlike (rebuilt_directive parse) ds (
        All-map ds (λ d k. record { same_name = refl; arguments = arguments_alike d.arguments k })
          h)

  pub field_alike :
      (f : Field)
      → AllArguments (PrintsBack parse) f.directives
      → FieldAlike (rebuilt_field parse f) f
  field_alike f h = record {
    same_name = refl;
    same_type = refl;
    same_arity = refl;
    directives = directives_alike f.directives h;
  }

  pub enum_alike :
      (e : Enum)
      → AllArguments (PrintsBack parse) e.directives
      → All (λ (v : EnumValue). AllArguments (PrintsBack parse) v.directives) e.values
      → EnumAlike (rebuilt_enum parse e) e
  enum_alike e h k = record {
    same_name = refl;
    values = Pairwise-map ValueAlike (rebuilt_value parse) e.values (
        All-map e.values
          (λ v d. record { same_name = refl; directives = directives_alike v.directives d }) k);
    directives = directives_alike e.directives h;
  }

  pub source_alike :
      (c : SourceConfig)
      → All (PrintsBack parse) c.properties
      → SourceAlike (rebuilt_source parse c) c
  source_alike c h = record { same_name = refl; properties = arguments_alike c.properties h }

  module _ (m : Model) where
    pub regular_is :
        regular_directives (rebuilt_model parse m)
        ≡ map (rebuilt_directive parse) (regular_directives m)
    unfolding regular_directives repeated_directives directive_is_regular directive_is_repeated
    regular_is =
        filter-append directive_is_regular (map (rebuilt_directive parse) (regular_directives m)) _
        ∙ rw
            (
              kept directive_is_regular directive_is_regular (rebuilt_directive parse) (λ d. refl)
                  (regular_directives m) (All-filter directive_is_regular m.directives),
              dropped directive_is_regular directive_is_regular (rebuilt_directive parse)
                  (λ d. refl) (repeated_directives m)
                  (All-map (repeated_directives m) (λ d e. ap not e)
                    (All-filter directive_is_repeated m.directives)),
            )
            (append-nil (map (rebuilt_directive parse) (regular_directives m)))

    repeated_is :
        repeated_directives (rebuilt_model parse m)
        ≡ map (rebuilt_directive parse) (repeated_directives m)
    unfolding regular_directives repeated_directives directive_is_regular directive_is_repeated
    repeated_is =
        filter-append directive_is_repeated (map (rebuilt_directive parse) (regular_directives m)) _
        ∙ rw (
          dropped directive_is_repeated directive_is_repeated (rebuilt_directive parse) (λ d. refl)
              (regular_directives m)
              (All-map (regular_directives m) (λ d e. not-true e)
                (All-filter directive_is_regular m.directives)),
          kept directive_is_repeated directive_is_repeated (rebuilt_directive parse) (λ d. refl)
              (repeated_directives m) (All-filter directive_is_repeated m.directives),
        )

    pub model_alike :
        All (λ (f : Field). AllArguments (PrintsBack parse) f.directives) m.fields
        → AllArguments (PrintsBack parse) (regular_directives m)
        → AllArguments (PrintsBack parse) (repeated_directives m)
        → ModelAlike (rebuilt_model parse m) m
    model_alike fields regular repeated = record {
      same_name = refl;
      fields =
          Pairwise-map FieldAlike (rebuilt_field parse) m.fields
            (All-map m.fields field_alike fields);
      regular =
          subst (λ ds. DirectivesAlike ds (regular_directives m)) (sym regular_is)
            (directives_alike (regular_directives m) regular);
      repeated =
          subst (λ ds. DirectivesAlike ds (repeated_directives m)) (sym repeated_is)
            (directives_alike (repeated_directives m) repeated);
    }
