-- ===== src/Sql/Answers.antt =====
-- Tests that may panic, on the columns of a table: migration-engine/connectors/
-- sql-migration-connector/src/sql_database_migration_inferrer.rs.
use mathlib.Core.List.{filter_map, flat_map}
use mathlib.Core.Option
use mathlib.Core.Option.{some-injective}
use prisma_engines.Prelude.{
  String, ◌≡◌, refl, ap, subst, eq_refl, eq_iff, ◌==◌, not, ◌&&◌, Bool, true, false, Option, none,
  some, List, [], ◌∷◌, map, find, Has, All, All-map, All-append, All-Has, any_of_Has, Option-cases,
  inl, inr, arith, Outcome, ok, err, panic, ok_or, if◌then◌else◌,
}
use prisma_engines.Sql.Schema.{
  Column, Table, SqlSchema, table, column_bang, column, contains, family_eq,
}
use prisma_engines.Sql.Steps.{TableChange}
use prisma_engines.Sql.Differ.Table.{column_pairs, columns_match}
use prisma_engines.Sql.Differ.Diff.{if_found}
use prisma_engines.Sql.Infer.{find_some, key_columns, changes_id_column}

-- A test that returns.
abbrev pub Answers : {A : Type 0} → (A → Outcome String Bool) → A → Type 0
Answers test a = (b : Bool) × (test a ≡ ok b)

pub find_some-Answers :
    {A : Type 0} (test : A → Outcome String Bool) (xs : List A)
    → All (Answers test) xs
    → (b : Bool) × (find_some test xs ≡ ok b)
unfolding find_some
find_some-Answers test [] h = (false, refl)
find_some-Answers test (x ∷ xs) ((true, e), h) = (true, rw e refl)
find_some-Answers test (x ∷ xs) ((false, e), h) = rw e (find_some-Answers test xs h)

pub All-wrapped :
    {A B : Type 0} (P : B → Type 0) (f : A → B) (xs : List A)
    → ((a : A) → P (f a))
    → All P (map f xs)
All-wrapped P f [] h = tt
All-wrapped P f (x ∷ xs) h = (h x, All-wrapped P f xs h)

pub All-filter_map :
    {A B : Type 0} (P : B → Type 0) (f : A → Option B) (xs : List A)
    → All (λ a. (b : B) → f a ≡ some b → P b) xs
    → All P (filter_map f xs)
unfolding filter_map
All-filter_map P f [] h = tt
All-filter_map P f (x ∷ xs) h = elim (Option-cases (f x)) [
  | inl e ↦ rw e (All-filter_map P f xs h.1)
  | inr made ↦ rw made.1 (h.0 made.0 made.1, All-filter_map P f xs h.1)
]

pub All-flat_map :
    {A B : Type 0} (P : B → Type 0) (f : A → List B) (xs : List A)
    → All (λ a. All P (f a)) xs
    → All P (flat_map f xs)
unfolding flat_map
All-flat_map P f [] h = tt
All-flat_map P f (x ∷ xs) h = All-append P (f x) (flat_map f xs) h.0 (All-flat_map P f xs h.1)

pub of_if : {A : Type 0} (b : Bool) (x y : A) → (if b then some x else none) ≡ some y → x ≡ y
of_if true x y h = cc
of_if false x y h = cc

pub of_unless : {A : Type 0} (b : Bool) (x y : A) → (if b then none else some x) ≡ some y → x ≡ y
of_unless true x y h = cc
of_unless false x y h = cc

-- A table that is found by its name.
pub find_holds : {A : Type 0} (p : A → Bool) (xs : List A) (a : A) → find p xs ≡ some a → p a ≡ true
unfolding find
find_holds p [] a h = cc
find_holds p (x ∷ xs) a h = ground (arith, find_holds p xs a)

pub found_ok : {E A : Type 0} (o : Option A) (e : E) (a : A) → ok_or o e ≡ ok a → o ≡ some a
found_ok none e a h = cc
found_ok (some b) e a h = cc

pub table_named :
    {Value : Type 0} (s : SqlSchema Value) (name : String) (t : Table Value)
    → table s name ≡ ok t
    → t.name ≡ name
unfolding table
table_named s name t h =
    let found : (t.name == name) ≡ true =
      find_holds (λ v. v.name == name) s.tables t
        (found_ok (find (λ v. v.name == name) s.tables) name t h) in
    (eq_iff t.name name).0 found

pub found_and :
    {E A B : Type 0} (next : A → Option B) (o : Outcome E A) (b : B)
    → if_found next o ≡ some b
    → (a : A) × (o ≡ ok a) × (next a ≡ some b)
found_and next (ok a) b h = (a, refl, h)
found_and next (err _) b h = cc
found_and next panic b h = cc

pub first_of :
    {A B : Type 0} (a : A) (o : Option B) (pair : A × B)
    → Option.map (λ b. (a, b)) o ≡ some pair
    → a ≡ pair.0
first_of {A} {B} a none pair h = cc
first_of {A} {B} a (some b) pair h = ap (λ (p : A × B). p.0) (some-injective (a, b) pair h)

-- Pairs of columns have one of the previous table.
pub column_pairs-Has :
    {Value : Type 0} (t v : Table Value) → All (λ pair. Has pair.0 t.columns) (column_pairs t v)
unfolding column_pairs
column_pairs-Has t v =
    All-filter_map (λ pair. Has pair.0 t.columns) _ t.columns
      (All-map t.columns
        (λ c m pair e.
          subst (λ k. Has k t.columns) (first_of c (find (columns_match c) v.columns) pair e) m)
        (All-Has t.columns))

-- The column of an alteration is there.
pub altered-Answers :
    {Value : Type 0} (t : Table Value) (c d : Column Value)
    → Has c t.columns
    → Answers
        (changes_id_column t)
        (TableChange.alter_column (record { name = c.name; column = d }))
unfolding changes_id_column column_bang column
altered-Answers t c d m = elim (Option-cases (find (λ k. k.name == c.name) t.columns)) [
  | inl e ↦ absurd (cc (any_of_Has (λ k. k.name == c.name) t.columns c (eq_refl c.name) m, e))
  | inr found ↦ (
    contains (key_columns t.primary_key) c.name && not (family_eq found.0.tpe.family d.tpe.family),
    rw found.1 refl,
  )
]
