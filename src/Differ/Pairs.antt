-- ===== src/Differ/Pairs.antt =====
-- What the differs of migration-engine/core/src/migration/datamodel_differ/ share: the entries of
-- one list that match none of another, and the pairs of entries that match.
use mathlib.Core.Option
use mathlib.Core.List.{filter_map}
use prisma_engines.Prelude.{Bool, List, is_none, filter, find}

-- The two versions of an entry, as in each of the structs `ModelDiffer`, `FieldDiffer`, ….
pub record Pair (A : Type 0) : Type 0 where
  pub previous : A
  pub next : A

module _ {A : Type 0} (matches : A → A → Bool) where
  -- The entries of `next` that no entry of `previous` matches.
  unfoldable pub created : List A → List A → List A
  created previous next = filter (λ n. is_none (find (λ p. matches p n) previous)) next

  -- The entries of `previous` that match no entry of `next`.
  unfoldable pub deleted : List A → List A → List A
  deleted previous next = filter (λ p. is_none (find (λ n. matches p n) next)) previous

  -- Each entry of `previous` with the first entry of `next` that it matches, if there is one.
  unfoldable pub pairs : List A → List A → List (Pair A)
  pairs previous next =
      filter_map
        (λ p. Option.map (λ n. record { previous = p; next = n }) (find (λ n. matches p n) next))
        previous
