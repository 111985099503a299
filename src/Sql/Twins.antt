-- ===== src/Sql/Twins.antt =====
-- Indexes of the same content under different names: migration-engine/connectors/
-- sql-migration-connector/src/sql_schema_differ.rs.
use mathlib.Core.List.{filter_map, flat_map}
use mathlib.Core.Option
use prisma_engines.Prelude.{
  ◌≡◌, ◌≢◌, refl, ap, sym, ◌∙◌, Bool, true, false, Option, none, some, List, [], ◌∷◌, ◌++◌, map,
  find, Has, Unique, find_unique, find-Has, is_none, inl, inr, Option-cases,
}
use prisma_engines.Sql.Schema.{Index, Table, SqlSchema}
use prisma_engines.Sql.Steps.{SqlMigrationStep}
use prisma_engines.Sql.Differ.Column.{DiffingOptions}
use prisma_engines.Sql.Differ.Table.{tables_match, index_pairs}
use prisma_engines.Sql.Differ.Changes.{rename_table_indexes}
use prisma_engines.Sql.Differ.Diff.{
  SqlFamily, SqlSchemaDiff, into_steps, diff, table_pairs, alter_indexes,
}
use prisma_engines.Sql.IdleTable.{twins}

right_empty : {A : Type 0} (xs ys : List A) → xs ++ ys ≡ [] → ys ≡ []
right_empty [] ys h = h
right_empty (x ∷ xs) ys h = cc

nil-ne-cons : {A : Type 0} (x : A) (xs : List A) → [] ≢ x ∷ xs
nil-ne-cons x xs h = cc

map_empty : {A B : Type 0} (f : A → B) (xs : List A) → map f xs ≡ [] → xs ≡ []
map_empty f [] h = refl
map_empty f (x ∷ xs) h = cc

left_empty : {A : Type 0} (xs ys : List A) → xs ++ ys ≡ [] → xs ≡ []
left_empty [] ys h = refl
left_empty (x ∷ xs) ys h = cc

flat_map_empty :
    {A B : Type 0} (f : A → List B) (xs : List A) (a : A) → flat_map f xs ≡ [] → Has a xs → f a ≡ []
unfolding flat_map
flat_map_empty f [] a h m = elim m [ ]
flat_map_empty f (x ∷ xs) a h (inl e) = ap f e ∙ left_empty (f x) (flat_map f xs) h
flat_map_empty f (x ∷ xs) a h (inr m) =
    flat_map_empty f xs a (right_empty (f x) (flat_map f xs) h) m

cons_made :
    {A B : Type 0} (f : A → Option B) (x : A) (xs : List A) (b : B)
    → f x ≡ some b
    → filter_map f (x ∷ xs) ≢ []
unfolding filter_map
cons_made f x xs b e h = nil-ne-cons b (filter_map f xs) (sym h ∙ rw e refl)

filter_map_empty_at :
    {A B : Type 0} (f : A → Option B) (x : A) (xs : List A) (a : A)
    → f x ≡ none
    → (filter_map f xs ≡ [] → Has a xs → f a ≡ none)
    → filter_map f (x ∷ xs) ≡ []
    → Has a (x ∷ xs)
    → f a ≡ none
unfolding filter_map
filter_map_empty_at f x xs a e rest h (inl same) = ap f same ∙ e
filter_map_empty_at f x xs a e rest h (inr m) = rest (rw e at h) m

filter_map_empty :
    {A B : Type 0} (f : A → Option B) (xs : List A) (a : A)
    → filter_map f xs ≡ []
    → Has a xs
    → f a ≡ none
unfolding filter_map
filter_map_empty f [] a h m = elim m [ ]
filter_map_empty f (x ∷ xs) a h m = elim (Option-cases (f x)) [
  | inl none_made ↦ filter_map_empty_at f x xs a none_made (filter_map_empty f xs a) h m
  | inr made ↦ absurd (cons_made f x xs made.0 made.1 h)
]

filter_map-Has :
    {A B : Type 0} (f : A → Option B) (xs : List A) (a : A) (b : B)
    → f a ≡ some b
    → Has a xs
    → Has b (filter_map f xs)
unfolding filter_map
filter_map-Has f [] a b e m = elim m [ ]
filter_map-Has f (x ∷ xs) a b e (inl same) =
    let made : f x ≡ some b = ap f (sym same) ∙ e in rw made (inl refl)
filter_map-Has f (x ∷ xs) a b e (inr m) = elim (Option-cases (f x)) [
  | inl none_made ↦ rw none_made (filter_map-Has f xs a b e m)
  | inr made ↦ rw made.1 (inr (filter_map-Has f xs a b e m))
]

no_image : {A B : Type 0} (f : A → B) (o : Option A) → Option.map f o ≡ none → is_none o ≡ false → ⊥
no_image f none h e = cc
no_image f (some a) h e = cc

module _ {Value : Type 0} (s : SqlSchema Value) where
  alter_indexes_empty :
      (t : Table Value) (i j : Index)
      → Unique (λ (u : Table Value). u.name) s.tables
      → Has t s.tables
      → Has i t.indices
      → Has j t.indices
      → twins i j ≡ true
      → alter_indexes s s ≢ []
  unfolding alter_indexes table_pairs tables_match index_pairs rename_table_indexes
  alter_indexes_empty t i j u of_s of_t other same h =
      let paired : Has (t, t) (table_pairs s s) =
        filter_map-Has _ s.tables t (t, t)
          (ap (Option.map (λ v. (t, v))) (find_unique (λ v. v.name) s.tables t u of_s)) of_s in
      let none_renamed : index_pairs t t ≡ [] =
        map_empty _ (index_pairs t t) (flat_map_empty _ (table_pairs s s) (t, t) h paired) in
      let none_found : Option.map (λ k. (i, k)) (find (twins i) t.indices) ≡ none =
        filter_map_empty _ t.indices i none_renamed of_t in
      no_image (λ k. (i, k)) (find (twins i) t.indices) none_found
        (find-Has (twins i) t.indices j same other)

module _ {Value : Type 0} where
  none_altered : (d : SqlSchemaDiff Value) → into_steps d ≡ [] → d.alter_indexes ≡ []
  unfolding into_steps
  none_altered d h = map_empty SqlMigrationStep.alter_index d.alter_indexes (
      right_empty (map SqlMigrationStep.drop_enum d.drop_enums) _ (
        right_empty (map SqlMigrationStep.drop_table d.drop_tables) _ (
          right_empty (map SqlMigrationStep.add_foreign_key d.add_foreign_keys) _ (
            right_empty (map SqlMigrationStep.create_index d.create_indexes) _ (
              right_empty (map SqlMigrationStep.alter_table d.alter_tables) _ (
                right_empty (map SqlMigrationStep.create_table d.create_tables) _ (
                  right_empty (map SqlMigrationStep.drop_index d.drop_indexes) _ (
                    right_empty (map SqlMigrationStep.alter_enum d.alter_enums) _
                      (right_empty (map SqlMigrationStep.create_enum d.create_enums) _ h)))))))))

  -- If a table of a schema, which no other one has the name of, has two indexes of the same columns
  -- and kind under different names, then there are steps between the schema and itself.
  pub diff_self-ne-nil :
      (value_eq : Value → Value → Bool) (options : DiffingOptions) (family : SqlFamily)
      (s : SqlSchema Value) (t : Table Value) (i j : Index)
      → Unique (λ (u : Table Value). u.name) s.tables
      → Has t s.tables
      → Has i t.indices
      → Has j t.indices
      → twins i j ≡ true
      → into_steps (diff value_eq options family s s) ≢ []
  unfolding diff
  diff_self-ne-nil value_eq options family s t i j u of_s of_t other same h =
      alter_indexes_empty s t i j u of_s of_t other same
        (none_altered (diff value_eq options family s s) h)
