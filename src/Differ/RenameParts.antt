-- ===== src/Differ/RenameParts.antt =====
-- The steps on arguments, directives and fields, and names:
-- migration-engine/core/src/migration/datamodel_differ.rs.
use mathlib.Core.List.{flat_map, filter_map}
use prisma_engines.Prelude.{
  String, ◌≡◌, refl, Bool, true, false, none, some, List, [], ◌∷◌, ◌++◌, map, ◌==◌, is_some, find,
  All, All_of, All-append, Option-cases, inl, inr, arith,
}
use prisma_engines.Ast.Node.{Argument, Directive}
use prisma_engines.Steps.{MigrationStep, update_model, update_enum, update_field}
use prisma_engines.Steps.Location.{DirectivePath, ArgumentLocation}
use prisma_engines.Differ.Pairs.{Pair, pairs}
use prisma_engines.Differ.Directives
use prisma_engines.Differ.Push.{
  diff_value, push_created_argument, push_updated_argument, push_deleted_argument,
  push_created_directive, push_created_directives, push_created_directive_with_arguments,
  push_deleted_directive, push_deleted_directives, push_deleted_directive_with_arguments,
  push_updated_directive, push_updated_directives,
}
use prisma_engines.Differ.PushTypes.{push_if}

-- Whether a step gives an entry a new name.
abbrev pub renames : MigrationStep → Bool
renames (update_model step) = is_some step.new_name
renames (update_enum step) = is_some step.new_name
renames (update_field step) = is_some step.new_name
renames _ = false

abbrev pub KeepsNames : List MigrationStep → Type 0
KeepsNames = All (λ step. renames step ≡ false)

module _ {A : Type 0} (P : MigrationStep → Type 0) where
  pub All-flat_map :
      (f : A → List MigrationStep) (xs : List A) → All (λ a. All P (f a)) xs → All P (flat_map f xs)
  unfolding flat_map
  All-flat_map f [] h = tt
  All-flat_map f (x ∷ xs) h = All-append P (f x) (flat_map f xs) h.0 (All-flat_map f xs h.1)

  pub All-map_steps : (f : A → MigrationStep) (xs : List A) → ((a : A) → P (f a)) → All P (map f xs)
  All-map_steps f [] h = tt
  All-map_steps f (x ∷ xs) h = (h x, All-map_steps f xs h)

pub both : (xs ys : List MigrationStep) → KeepsNames xs → KeepsNames ys → KeepsNames (xs ++ ys)
both = All-append (λ step. renames step ≡ false)

module _ {A : Type 0} where
  pub each :
      (f : A → List MigrationStep)
      → ((a : A) → KeepsNames (f a))
      → (xs : List A) → KeepsNames (flat_map f xs)
  each f h xs = All-flat_map (λ step. renames step ≡ false) f xs (All_of xs h)

  pub find_sound : (p : A → Bool) (xs : List A) (a : A) → find p xs ≡ some a → p a ≡ true
  unfolding find
  find_sound p [] a h = cc
  find_sound p (x ∷ xs) a h = ground (arith, find_sound p xs a)

  -- The two entries of a pair match.
  pub pairs_match :
      (matches : A → A → Bool) (xs ys : List A)
      → All (λ (p : Pair A). matches p.previous p.next ≡ true) (pairs matches xs ys)
  unfolding pairs filter_map
  pairs_match matches [] ys = tt
  pairs_match matches (x ∷ xs) ys = elim (Option-cases (find (λ n. matches x n) ys)) [
    | inl e ↦ rw e (pairs_match matches xs ys)
    | inr (y, e) ↦ rw e (find_sound (λ n. matches x n) ys y e, pairs_match matches xs ys)
  ]

pub diff_value_same : (a b : String) → (a == b) ≡ true → diff_value ◌==◌ a b ≡ none
unfolding diff_value
diff_value_same a b h = rw h

pub push_if-KeepsNames :
    (b : Bool) (step : MigrationStep) → renames step ≡ false → KeepsNames (push_if b step)
push_if-KeepsNames true step h = (h, tt)
push_if-KeepsNames false step h = tt

module _ (path : DirectivePath) where
  pub created_keep : (ds : List Directive) → KeepsNames (push_created_directives path ds)
  unfolding push_created_directives push_created_directive push_created_argument
  created_keep = each _ (λ d. (refl, each _ (λ a. (refl, tt)) d.arguments))

  pub deleted_keep : (ds : List Directive) → KeepsNames (push_deleted_directives path ds)
  unfolding push_deleted_directives push_deleted_directive
  deleted_keep = each _ (λ d. (refl, tt))

  pub created_with_keep :
      (ds : List Directive) → KeepsNames (flat_map (push_created_directive_with_arguments path) ds)
  unfolding push_created_directive_with_arguments
  created_with_keep = each _ (λ d. (refl, tt))

  pub deleted_with_keep :
      (ds : List Directive) → KeepsNames (flat_map (push_deleted_directive_with_arguments path) ds)
  unfolding push_deleted_directive_with_arguments
  deleted_with_keep = each _ (λ d. (refl, tt))

pub created_arguments_keep :
    (location : ArgumentLocation) (new : List Argument)
    → KeepsNames (flat_map (push_created_argument location) new)
unfolding push_created_argument
created_arguments_keep location = each _ (λ a. (refl, tt))

pub deleted_arguments_keep :
    (location : ArgumentLocation) (old : List Argument)
    → KeepsNames
        (flat_map (λ (argument : Argument). push_deleted_argument location argument.name.name) old)
unfolding push_deleted_argument
deleted_arguments_keep location = each _ (λ a. (refl, tt))

pub updated_arguments_keep :
    (location : ArgumentLocation) (ps : List (Pair Argument))
    → KeepsNames (flat_map (push_updated_argument location) ps)
unfolding push_updated_argument
updated_arguments_keep location = each _ (λ p. ground arith)

pub updated_keep :
    (path : DirectivePath) (ps : List (Pair Directive))
    → KeepsNames (push_updated_directives path ps)
unfolding push_updated_directives push_updated_directive
updated_keep path = each _ (λ p.
    both _ _ (created_arguments_keep _ (Directives.created_arguments p)) (
      both _ _ (updated_arguments_keep _ (Directives.argument_pairs p))
        (deleted_arguments_keep _ (Directives.deleted_arguments p))))

-- The steps on the directives of an entry.
pub three_keep :
    (path : DirectivePath) (new : List Directive) (ps : List (Pair Directive))
    (old : List Directive)
    → KeepsNames (
        push_created_directives path new
        ++ (push_updated_directives path ps ++ push_deleted_directives path old))
three_keep path new ps old =
    both _ _ (created_keep path new) (both _ _ (updated_keep path ps) (deleted_keep path old))
