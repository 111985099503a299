-- ===== src/Differ/AlikeParts.antt =====
-- The steps between entries that steps describe alike: arguments, directives, fields and enum
-- values.
use mathlib.Core.List.{flat_map}
use prisma_engines.Prelude.{
  ℕ, String, ◌≡◌, refl, sym, Bool, true, none, List, [], ◌==◌, Unique, All, All-map, nat_eq, length,
  all_of, any_of_Has, arith, ◌∷◌, ◌∙◌, All_of, Pairwise, Pairwise-left, Pairwise-length,
}
use prisma_engines.Ast.Node
use prisma_engines.Ast.Node.{Argument, Directive, Field, EnumValue}
use prisma_engines.Steps.{UpdateTypeAlias_is_any_option_set, UpdateField_is_any_option_set}
use prisma_engines.Steps.Location.{ArgumentLocation, DirectivePath}
use prisma_engines.Differ.Pairs.{Pair, created, deleted, pairs}
use prisma_engines.Differ.AlikePairs.{
  eq_alike, created_by_any, deleted_by_any, created_alike, deleted_alike, flat_map-pairs_alike,
}
use prisma_engines.Differ.Alike.{
  ArgumentAlike, DirectiveAlike, DirectivesAlike, FieldAlike, ValueAlike,
}
use prisma_engines.Differ.Directives.{
  arguments_match, directives_match, created_arguments, deleted_arguments, argument_pairs,
  arguments_are_identical, directives_are_identical,
}
use prisma_engines.Differ.Fields
use prisma_engines.Differ.EnumValues
use prisma_engines.Differ.Push.{
  diff_value, push_updated_argument, push_updated_directive, push_updated_directives,
  push_created_directives, push_deleted_directives,
}
use prisma_engines.Differ.PushTypes.{push_updated_type_alias, push_updated_enum_value}
use prisma_engines.Differ.PushModels.{arity_eq, push_updated_field}
use prisma_engines.WellNamed.{DirectivesWellNamed, argument_name, directive_name}

abbrev pub pair : {A : Type 0} → A → A → Pair A
pair a b = record { previous = a; next = b }

nat_eq_alike : (m n : ℕ) → m ≡ n → nat_eq m n ≡ true
nat_eq_alike m n h = ground arith

pub diff_value_alike {ℓ} :
    {T : Type ℓ} (eq : T → T → Bool) (a b : T) → eq a b ≡ true → diff_value eq a b ≡ none
unfolding diff_value
diff_value_alike eq a b h = rw h

-- The entries at the same place satisfy two relations, one of which the second list's entries do.
pub Pairwise-and :
    {A : Type 0} {R S : A → A → Type 0} {Q : A → Type 0} (xs ys : List A)
    → ((a b : A) → R a b → Q b → S a b)
    → Pairwise R xs ys
    → All Q ys
    → Pairwise S xs ys
Pairwise-and [] [] f h q = tt
Pairwise-and [] (y ∷ ys) f h q = elim h [ ]
Pairwise-and (x ∷ xs) [] f h q = elim h [ ]
Pairwise-and (x ∷ xs) (y ∷ ys) f h q = (f x y h.0 q.0, Pairwise-and xs ys f h.1 q.1)

arguments_fit : (a b : Argument) → ArgumentAlike a b → arguments_match a b ≡ true
unfolding arguments_match
arguments_fit a b h = eq_alike h.same_name

-- The steps on the arguments of a directive or a source.
module _ (location : ArgumentLocation) (xs ys : List Argument)
    (h : Pairwise ArgumentAlike xs ys) where
  pub created_arguments_alike : created arguments_match xs ys ≡ []
  created_arguments_alike = created_alike arguments_match ArgumentAlike arguments_fit xs ys h

  pub deleted_arguments_alike : deleted arguments_match xs ys ≡ []
  deleted_arguments_alike = deleted_alike arguments_match ArgumentAlike arguments_fit xs ys h

  push_updated_argument_alike :
      (a b : Argument) → ArgumentAlike a b → push_updated_argument location (pair a b) ≡ []
  unfolding push_updated_argument
  push_updated_argument_alike a b k = rw (eq_alike k.same_text)

  pub push_updated_arguments_alike :
      Unique argument_name ys
      → flat_map (push_updated_argument location) (pairs arguments_match xs ys) ≡ []
  unfolding arguments_match
  push_updated_arguments_alike u =
      flat_map-pairs_alike arguments_match (push_updated_argument location) ys argument_name xs
        (λ a b. refl) u
        (Pairwise-and xs ys (λ a b k _. (k.same_name, push_updated_argument_alike a b k)) h
          (All_of ys (λ b. tt)))

-- The steps on directives that match by their names, under any of the differs' tests.
module _ (path : DirectivePath) where
  push_updated_directive_alike :
      (d e : Directive)
      → DirectiveAlike d e
      → Unique argument_name e.arguments
      → push_updated_directive path (pair d e) ≡ []
  unfolding push_updated_directive created_arguments deleted_arguments argument_pairs flat_map
  push_updated_directive_alike d e h u = rw (
    created_arguments_alike location d.arguments e.arguments h.arguments,
    deleted_arguments_alike location d.arguments e.arguments h.arguments,
    push_updated_arguments_alike location d.arguments e.arguments h.arguments u,
  )
    where
      location : ArgumentLocation
      location = ArgumentLocation.directive (record { path = path; directive = d.name.name })

  module _ (matches : Directive → Directive → Bool)
      (named : (d e : Directive) → matches d e ≡ (d.name.name == e.name.name))
      (ds es : List Directive) (h : DirectivesAlike ds es) where
    fits : (d e : Directive) → DirectiveAlike d e → matches d e ≡ true
    fits d e k = named d e ∙ eq_alike k.same_name

    pub created_directives_alike : created matches ds es ≡ []
    created_directives_alike = created_alike matches DirectiveAlike fits ds es h

    pub deleted_directives_alike : deleted matches ds es ≡ []
    deleted_directives_alike = deleted_alike matches DirectiveAlike fits ds es h

    pub push_updated_directives_alike :
        DirectivesWellNamed es → flat_map (push_updated_directive path) (pairs matches ds es) ≡ []
    push_updated_directives_alike w =
        flat_map-pairs_alike matches (push_updated_directive path) es directive_name ds named w.0 (
          Pairwise-and ds es (λ d e k u. (k.same_name, push_updated_directive_alike d e k u)) h w.1)

-- Directives whose arguments agree place by place are identical, whatever the names of these.
pub directives_are_identical_alike :
    (d e : Directive) → DirectiveAlike d e → directives_are_identical d e ≡ true
unfolding directives_are_identical
directives_are_identical_alike d e h =
    rw
      (
        eq_alike h.same_name,
        nat_eq_alike (length d.arguments) (length e.arguments)
            (Pairwise-length ArgumentAlike d.arguments e.arguments h.arguments),
      )
      (all_of _ d.arguments (
        All-map d.arguments
          (λ a found.
            any_of_Has (λ b. arguments_are_identical a b) e.arguments found.0
              (identical a found.0 found.1.1) found.1.0)
          (Pairwise-left ArgumentAlike d.arguments e.arguments h.arguments)))
  where
    identical : (a b : Argument) → ArgumentAlike a b → arguments_are_identical a b ≡ true
    identical a b k = rw (eq_alike k.same_name) (eq_alike k.same_text)

pub push_updated_type_alias-alike :
    (f g : Field)
    → FieldAlike f g
    → DirectivesWellNamed g.directives
    → push_updated_type_alias (pair f g) ≡ []
unfolding push_updated_type_alias UpdateTypeAlias_is_any_option_set Fields.created_directives
    Fields.deleted_directives Fields.directive_pairs push_created_directives push_deleted_directives
    push_updated_directives flat_map directives_match
push_updated_type_alias-alike f g h w = rw (
  diff_value_alike ◌==◌ f.field_type.name g.field_type.name (eq_alike h.same_type),
  created_directives_alike path directives_match (λ d e. refl) f.directives g.directives
      h.directives,
  deleted_directives_alike path directives_match (λ d e. refl) f.directives g.directives
      h.directives,
  push_updated_directives_alike path directives_match (λ d e. refl) f.directives g.directives
      h.directives w,
)
  where
    path : DirectivePath
    path = DirectivePath.type_alias f.name.name

arity_eq_alike : (a b : Node.FieldArity) → a ≡ b → arity_eq a b ≡ true
unfolding arity_eq
arity_eq_alike Node.FieldArity.required b h = rw (sym h)
arity_eq_alike Node.FieldArity.optional b h = rw (sym h)
arity_eq_alike Node.FieldArity.list b h = rw (sym h)

pub push_updated_field-alike :
    (model : String) (f g : Field)
    → FieldAlike f g
    → DirectivesWellNamed g.directives
    → push_updated_field model (pair f g) ≡ []
unfolding push_updated_field UpdateField_is_any_option_set Fields.created_directives
    Fields.deleted_directives Fields.directive_pairs push_created_directives push_deleted_directives
    push_updated_directives flat_map directives_match
push_updated_field-alike model f g h w = rw (
  diff_value_alike ◌==◌ f.name.name g.name.name (eq_alike h.same_name),
  diff_value_alike ◌==◌ f.field_type.name g.field_type.name (eq_alike h.same_type),
  diff_value_alike arity_eq f.arity g.arity (arity_eq_alike f.arity g.arity h.same_arity),
  created_directives_alike path directives_match (λ d e. refl) f.directives g.directives
      h.directives,
  deleted_directives_alike path directives_match (λ d e. refl) f.directives g.directives
      h.directives,
  push_updated_directives_alike path directives_match (λ d e. refl) f.directives g.directives
      h.directives w,
)
  where
    path : DirectivePath
    path = DirectivePath.field model f.name.name

pub push_updated_enum_value-alike :
    (enum : String) (v w : EnumValue)
    → ValueAlike v w
    → DirectivesWellNamed w.directives
    → push_updated_enum_value enum (pair v w) ≡ []
unfolding push_updated_enum_value EnumValues.created_directives EnumValues.deleted_directives
    EnumValues.directive_pairs push_created_directives push_deleted_directives
    push_updated_directives flat_map EnumValues.enum_value_directives_match
push_updated_enum_value-alike enum v w h n = rw (
  created_by_any EnumValues.enum_value_directives_match v.directives w.directives,
  deleted_by_any EnumValues.enum_value_directives_match v.directives w.directives,
  created_directives_alike path EnumValues.enum_value_directives_match (λ d e. refl) v.directives
      w.directives h.directives,
  deleted_directives_alike path EnumValues.enum_value_directives_match (λ d e. refl) v.directives
      w.directives h.directives,
  push_updated_directives_alike path EnumValues.enum_value_directives_match (λ d e. refl)
      v.directives w.directives h.directives n,
)
  where
    path : DirectivePath
    path = DirectivePath.enum_value enum w.name.name
