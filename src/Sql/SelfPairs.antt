-- ===== src/Sql/SelfPairs.antt =====
-- The pairs of the entries of one list with the entries of the same names in it, as the differ of
-- migration-engine/connectors/sql-migration-connector/src/sql_schema_differ.rs pairs tables, columns
-- and enums.
use mathlib.Core.List.{filter_map, flat_map}
use mathlib.Core.Option
use prisma_engines.Prelude.{
  ◌≡◌, refl, ap, ◌∙◌, fun_ext, Bool, true, not, Option, none, some, is_none, List, [], ◌∷◌, find,
  any, filter, All, All-map, All-Has, filter-nil, find-Has, is_none-any, Bool-cases, inl, inr,
}

module _ {A : Type 0} (test : A → A → Bool) (ys : List A) where
  abbrev pub paired : List A → List (A × A)
  paired xs = filter_map (λ x. Option.map (λ y. (x, y)) (find (test x) ys)) xs

  -- Each entry finds itself.
  abbrev pub FindsItself : List A → Type 0
  FindsItself = All λ x. find (test x) ys ≡ some x

  pub flat_map-paired :
      {B : Type 0} (f : A × A → List B) (xs : List A)
      → FindsItself xs
      → All (λ x. f (x, x) ≡ []) xs
      → flat_map f (paired xs) ≡ []
  unfolding flat_map filter_map
  flat_map-paired f [] finds idle = refl
  flat_map-paired f (x ∷ xs) finds idle = rw (finds.0, idle.0) (flat_map-paired f xs finds.1 idle.1)

  pub filter_map-paired :
      {B : Type 0} (f : A × A → Option B) (xs : List A)
      → FindsItself xs
      → All (λ x. f (x, x) ≡ none) xs
      → filter_map f (paired xs) ≡ []
  unfolding filter_map
  filter_map-paired f [] finds idle = refl
  filter_map-paired f (x ∷ xs) finds idle =
      rw (finds.0, idle.0) (filter_map-paired f xs finds.1 idle.1)

module _ {A : Type 0} (p : A → A → Bool) (self : (a : A) → p a a ≡ true) (xs : List A) where
  -- No entry is missing in its own list.
  pub none_missing : filter (λ x. is_none (find (p x) xs)) xs ≡ []
  none_missing = filter-nil _ xs (All-map xs (λ a m. find-Has (p a) xs a (self a) m) (All-Has xs))

  pub none_missing_by_any : filter (λ x. not (any (p x) xs)) xs ≡ []
  none_missing_by_any = ap (λ q. filter q xs) (fun_ext (λ x. is_none-any (p x) xs)) ∙ none_missing

pub All-filter :
    {A : Type 0} (P : A → Type 0) (q : A → Bool) (xs : List A) → All P xs → All P (filter q xs)
unfolding filter
All-filter P q [] h = tt
All-filter P q (x ∷ xs) h = elim (Bool-cases (q x)) [
  | inl e ↦ rw e (h.0, All-filter P q xs h.1)
  | inr e ↦ rw e (All-filter P q xs h.1)
]
