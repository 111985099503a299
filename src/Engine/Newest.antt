-- ===== src/Engine/Newest.antt =====
-- The migration that the default methods of a persistence find among the loaded ones:
-- migration-engine/connectors/migration-connector/src/migration_persistence.rs.
use mathlib.Core.List.{reverse, reverse-cons}
use prisma_engines.Prelude.{
  Bool, true, false, not, ◌&&◌, ◌≡◌, refl, ap, ◌∙◌, ◌||◌, sym, subst, Option, none, some, List, [],
  ◌∷◌, ◌++◌, find, any, if◌then◌else◌,
}
use prisma_engines.Engine.Migration.{Migration, is_watch_migration}
use prisma_engines.Engine.Persistence.{is_success, newest, newest_applied}

module _ {A : Type 0} (test : A → Bool) where
  -- What is the last entry of a list that passes a test, if there is one.
  pub data LastOf (all : List A) : Option A → Type 0 where
    absent : any test all ≡ false → LastOf all none
    present :
        (front back : List A)
        → (a : A) → all ≡ front ++ a ∷ back
        → test a ≡ true
        → any test back ≡ false
        → LastOf all (some a)

  abbrev or_else : Option A → Option A → Option A
  or_else none second = second
  or_else (some a) second = some a

  if-or_else :
      (b : Bool)
      → (x : A) → (both first second : Option A) → both ≡ or_else first second
      → (if b then some x else both) ≡ or_else (if b then some x else first) second
  if-or_else true x both first second same = refl
  if-or_else false x both first second same = same

  find-append : (xs ys : List A) → find test (xs ++ ys) ≡ or_else (find test xs) (find test ys)
  unfolding find
  find-append [] ys = refl
  find-append (x ∷ xs) ys = if-or_else (test x) x _ _ _ (find-append xs ys)

  extend-LastOf :
      (x : A)
      → (xs : List A) → (found : Option A) → LastOf xs found
      → LastOf (x ∷ xs) (or_else found (find test (x ∷ [])))
  unfolding find any
  extend-LastOf x xs none (LastOf.absent fails) = by_test (test x) refl
    where
      by_test : (b : Bool) → test x ≡ b → LastOf (x ∷ xs) (if b then some x else none)
      by_test true passes = LastOf.present [] xs x refl passes fails
      by_test false fails' = LastOf.absent (ap (λ b. b || any test xs) fails' ∙ fails)
  extend-LastOf x xs (some _) (LastOf.present front back a is_split passes fails) =
      LastOf.present (x ∷ front) back a (ap (λ l. x ∷ l) is_split) passes fails

  find-LastOf : (all : List A) → LastOf all (find test (reverse all))
  unfolding find any
  find-LastOf [] = LastOf.absent refl
  find-LastOf (x ∷ xs) =
      subst (λ found. LastOf (x ∷ xs) found)
        (sym (ap (find test) (reverse-cons x xs) ∙ find-append (reverse xs) (x ∷ [])))
        (extend-LastOf x xs (find test (reverse xs)) (find-LastOf xs))

module _ {Time Json : Type 0} where
  abbrev pub is_kept : Migration Time Json → Bool
  is_kept migration = not (is_watch_migration migration.name)

  -- What `last_non_watch_migration` finds among the loaded migrations is the last one that is no
  -- watch migration, or nothing where all are watch migrations; `last_non_watch_applied_migration`
  -- finds the last one that besides is successful.
  pub newest-LastOf :
      (all : List (Migration Time Json))
      → LastOf is_kept all (newest all)
        × LastOf (λ migration. is_kept migration && is_success migration) all (newest_applied all)
  unfolding newest newest_applied
  newest-LastOf all = (
    find-LastOf is_kept all,
    find-LastOf (λ migration. is_kept migration && is_success migration) all,
  )
