-- ===== src/Differ/AlikePairs.antt =====
-- The differs of migration-engine/core/src/migration/datamodel_differ/ on two lists whose entries
-- match place by place.
use mathlib.Core.List.{filter_map, flat_map}
use prisma_engines.Prelude.{
  String, ◌≡◌, refl, ap, ◌∙◌, Bool, true, some, List, [], ◌∷◌, ◌==◌, eq_refl, find, filter, any,
  not, is_none-any, fun_ext, All, Unique, All-map, filter-nil, find-Has, find_unique, Pairwise,
  Pairwise-left, Pairwise-right,
}
use prisma_engines.Differ.Pairs.{Pair, created, deleted, pairs}

-- The test of two names that are the same.
pub eq_alike : {a b : String} → a ≡ b → (a == b) ≡ true
eq_alike {a = a} {b = b} h = rw h (eq_refl b)

module _ {A : Type 0} (matches : A → A → Bool) where
  -- `!any(…)` in place of `find(…).is_none()`.
  pub created_by_any :
      (previous next : List A)
      → filter (λ n. not (any (λ p. matches p n) previous)) next ≡ created matches previous next
  unfolding created
  created_by_any previous next =
      ap (λ p. filter p next) (fun_ext (λ n. is_none-any (λ p. matches p n) previous))

  pub deleted_by_any :
      (previous next : List A)
      → filter (λ p. not (any (λ n. matches p n) next)) previous ≡ deleted matches previous next
  unfolding deleted
  deleted_by_any previous next =
      ap (λ p. filter p previous) (fun_ext (λ p. is_none-any (λ n. matches p n) next))

  module _ (R : A → A → Type 0) (fits : (a b : A) → R a b → matches a b ≡ true) (xs ys : List A)
      (h : Pairwise R xs ys) where
    -- Nothing is created between such lists.
    pub created_alike : created matches xs ys ≡ []
    unfolding created
    created_alike = filter-nil _ ys (
        All-map ys
          (λ b found. find-Has (λ p. matches p b) xs found.0 (fits found.0 b found.1.1) found.1.0)
          (Pairwise-right R xs ys h))

    -- Nothing is deleted between such lists.
    pub deleted_alike : deleted matches xs ys ≡ []
    unfolding deleted
    deleted_alike = filter-nil _ xs (
        All-map xs
          (λ a found. find-Has (λ n. matches a n) ys found.0 (fits a found.0 found.1.1) found.1.0)
          (Pairwise-left _ xs ys h))

-- What is pushed for an entry and the first entry that it matches.
module _ {A B : Type 0} (matches : A → A → Bool) (f : Pair A → List B) (ys : List A) where
  Settled : A → Type 0
  Settled a =
      (b : A) × ((find (λ n. matches a n) ys ≡ some b)
        × (f (record { previous = a; next = b }) ≡ []))

  flat_map-pairs : (xs : List A) → All Settled xs → flat_map f (pairs matches xs ys) ≡ []
  unfolding flat_map filter_map pairs Settled
  flat_map-pairs [] h = refl
  flat_map-pairs (x ∷ xs) h = rw (h.0.1.0, h.0.1.1) (flat_map-pairs xs h.1)

  -- Where entries match by their names, nothing is pushed for the pairs if nothing is pushed for
  -- any two entries at the same place.
  pub flat_map-pairs_alike :
      (ident : A → String) (xs : List A)
      → ((a b : A) → matches a b ≡ (ident a == ident b))
      → Unique ident ys
      → Pairwise (λ a b. (ident a ≡ ident b) × (f (record { previous = a; next = b }) ≡ [])) xs ys
      → flat_map f (pairs matches xs ys) ≡ []
  unfolding Settled
  flat_map-pairs_alike ident xs m u h = flat_map-pairs xs (
      All-map xs
        (λ a found. (
          found.0,
          (
            ap (λ p. find p ys) (fun_ext (λ n. m a n ∙ ap (λ t. t == ident n) found.1.1.0))
                ∙ find_unique ident ys found.0 u found.1.0,
            found.1.1.1,
          ),
        ))
        (Pairwise-left _ xs ys h))
