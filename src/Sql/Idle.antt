-- ===== src/Sql/Idle.antt =====
-- The steps between a schema and itself:
-- migration-engine/connectors/sql-migration-connector/src/sql_schema_differ.rs.
use mathlib.Core.List.{filter_map, flat_map}
use prisma_engines.Prelude.{
  ◌≡◌, refl, ap, eq-sym, ◌∙◌, fun_ext, ◌==◌, eq_refl, not, Bool, true, Option, none, some, List, [],
  find, filter, All, All-map, All-Has, find_unique, any_of_Has, filter-nil, filter_map-nil, All_of,
  All-zip, ok,
}
use prisma_engines.Sql.Schema.{Enum, Table, SqlSchema, has_table, get_table, table}
use prisma_engines.Sql.Differ.Column.{DiffingOptions}
use prisma_engines.Sql.Differ.Table.{
  enums_match, tables_match, created_foreign_keys, created_indexes, index_pairs,
}
use prisma_engines.Sql.Differ.Changes.{
  add_table_foreign_keys, create_table_indexes, rename_table_indexes, enum_pairs, alter_enum,
}
use prisma_engines.Sql.Differ.Diff.{
  SqlFamily, into_steps, table_pairs, kept_tables, created_tables, dropped_tables, create_tables,
  drop_tables, add_foreign_keys, create_indexes, drop_indexes, alter_indexes, create_enums,
  drop_enums, alter_enums, alter_tables, diff,
}
use prisma_engines.Sql.SelfPairs.{
  flat_map-paired, filter_map-paired, none_missing_by_any, All-filter,
}
use prisma_engines.Sql.IdleTable.{
  WellDescribed, finds_itself, created_indexes_self, dropped_indexes_self,
  created_foreign_keys_self, index_pairs_self, alter_table_self, alter_enum_self,
}

module _ {Value : Type 0} (s : SqlSchema Value) (w : WellDescribed s)
    (options : DiffingOptions) where
  found_table : All (λ t. has_table s t.name ≡ true) s.tables
  unfolding has_table get_table
  found_table =
      All-map s.tables (λ t m. any_of_Has (λ u. u.name == t.name) s.tables t (eq_refl t.name) m)
        (All-Has s.tables)

  created_tables_self : created_tables options s s ≡ []
  unfolding created_tables kept_tables
  created_tables_self =
      filter-nil _ (kept_tables options s)
        (All-filter _ _ s.tables (All-map s.tables (λ t e. ap not e) found_table))

  dropped_tables_self : dropped_tables options s s ≡ []
  unfolding dropped_tables tables_match
  dropped_tables_self =
      none_missing_by_any (λ t u. t.name == u.name) (λ t. eq_refl t.name) (kept_tables options s)

  pairs_idle :
      {B : Type 0} (f : Table Value × Table Value → List B)
      → All (λ t. f (t, t) ≡ []) s.tables
      → flat_map f (table_pairs s s) ≡ []
  unfolding table_pairs tables_match
  pairs_idle f idle =
      flat_map-paired (λ t u. t.name == u.name) s.tables f s.tables
        (finds_itself (λ t. t.name) s.tables w.tables) idle

  enum_pairs_idle :
      {B : Type 0} (f : Enum × Enum → Option B)
      → All (λ e. f (e, e) ≡ none) s.enums
      → filter_map f (enum_pairs s.enums s.enums) ≡ []
  unfolding enum_pairs enums_match
  enum_pairs_idle f idle =
      filter_map-paired (λ a b. a.name == b.name) s.enums f s.enums
        (finds_itself (λ e. e.name) s.enums w.enums) idle

  add_foreign_keys_self : add_foreign_keys options s s ≡ []
  unfolding add_foreign_keys flat_map add_table_foreign_keys
  add_foreign_keys_self = rw created_tables_self (
      pairs_idle (λ pair. add_table_foreign_keys pair.1.name (created_foreign_keys pair.0 pair.1))
        (All_of s.tables λ t. ap (add_table_foreign_keys t.name) (created_foreign_keys_self t)))

  create_indexes_self : create_indexes options s s ≡ []
  unfolding create_indexes flat_map create_table_indexes
  create_indexes_self = rw created_tables_self (
      pairs_idle (λ pair. create_table_indexes pair.1.name (created_indexes pair.0 pair.1))
        (All_of s.tables λ t. ap (create_table_indexes t.name) (created_indexes_self t)))

  drop_indexes_self : (family : SqlFamily) → drop_indexes s s family ≡ []
  unfolding drop_indexes filter
  drop_indexes_self family = pairs_idle _ (All_of s.tables λ t. rw (dropped_indexes_self t) refl)

  alter_indexes_self : alter_indexes s s ≡ []
  unfolding alter_indexes rename_table_indexes
  alter_indexes_self =
      pairs_idle (λ pair. rename_table_indexes pair.1.name (index_pairs pair.0 pair.1))
        (All-map s.tables (λ t alone. ap (rename_table_indexes t.name) (index_pairs_self t alone))
          w.indices)

  table_self : All (λ t. table s t.name ≡ ok t) s.tables
  unfolding table
  table_self =
      All-map s.tables
        (λ t m.
          let found : find (λ u. u.name == t.name) s.tables ≡ some t =
            ap (λ p. find p s.tables) (fun_ext (λ u. eq-sym u.name t.name))
            ∙ find_unique (λ u. u.name) s.tables t w.tables m in
          rw (found, table) refl)
        (All-Has s.tables)

  create_enums_self : create_enums s s ≡ []
  unfolding create_enums enums_match
  create_enums_self =
      rw
        (none_missing_by_any (λ (e : Enum) (p : Enum). p.name == e.name) (λ e. eq_refl e.name)
          s.enums)
        refl

  drop_enums_self : drop_enums s s ≡ []
  unfolding drop_enums enums_match
  drop_enums_self =
      rw
        (none_missing_by_any (λ (e : Enum) (p : Enum). e.name == p.name) (λ e. eq_refl e.name)
          s.enums)
        refl

  alter_enums_self : alter_enums s s ≡ []
  unfolding alter_enums
  alter_enums_self =
      enum_pairs_idle (λ pair. alter_enum pair.0 pair.1) (All_of s.enums alter_enum_self)

  module _ (value_eq : Value → Value → Bool)
      (value_eq_refl : (v : Value) → value_eq v v ≡ true) where
    alter_tables_self : alter_tables value_eq options s s ≡ []
    unfolding alter_tables
    alter_tables_self = filter_map-nil _ s.tables (
        All-map s.tables (λ t h. rw h.0 (alter_table_self t value_eq value_eq_refl options h.1))
          (All-zip _ _ s.tables table_self w.columns))

    -- From a `WellDescribed` schema to itself there are no steps, whatever the database and the
    -- options are, if equal values of defaults are equal by their test.
    pub diff_self : (family : SqlFamily) → into_steps (diff value_eq options family s s) ≡ []
    unfolding into_steps diff create_tables drop_tables flat_map
    diff_self family =
        rw
          (
            created_tables_self,
            dropped_tables_self,
            add_foreign_keys_self,
            create_indexes_self,
            drop_indexes_self family,
            alter_indexes_self,
            create_enums_self,
            drop_enums_self,
            alter_enums_self,
            alter_tables_self,
          )
          refl
