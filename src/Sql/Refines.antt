-- ===== src/Sql/Refines.antt =====
-- The steps between two SQL schemas lead from the names of the one to those of the other:
-- migration-engine/connectors/sql-migration-connector/src/sql_schema_differ.rs.
use prisma_engines.Prelude.{
  String, ◌==◌, ◌≡◌, refl, ap, sym, ◌∙◌, true, false, not, ◌&&◌, ◌||◌, Bool, any, if◌then◌else◌,
}
use prisma_engines.Sql.Schema.{Enum, Table, SqlSchema, has_table, get_table}
use prisma_engines.Sql.Differ.Column.{DiffingOptions}
use prisma_engines.Sql.Differ.Table.{tables_match, enums_match}
use prisma_engines.Sql.Differ.Diff.{
  SqlFamily, into_steps, diff, table_is_ignored, kept_tables, created_tables, dropped_tables,
  create_tables, drop_tables, create_enums, drop_enums,
}
use prisma_engines.Sql.Catalog.{table_names_after, enum_names_after, run}
use prisma_engines.Sql.TableNames.{tables_left, any-filter, any-map, any-is_some, any_flipped}
use prisma_engines.Sql.EnumNames.{enums_left}

-- An entry is removed if it is not in the next schema, and added if it is not in the previous one.
settled :
    (ignored before next : Bool)
    → (not (not (not ignored && next) && (not ignored && before))
        && ((not before && (not ignored && next)) || before))
      ≡ (if ignored then before else next)
settled true true next = refl
settled true false next = refl
settled false true true = refl
settled false true false = refl
settled false false true = refl
settled false false false = refl

module _ {Value : Type 0} (options : DiffingOptions) (previous next : SqlSchema Value)
    (n : String) where
  kept :
      (s : SqlSchema Value)
      → any (λ t. t.name == n) (kept_tables options s)
        ≡ (not (table_is_ignored options n) && has_table s n)
  unfolding kept_tables has_table get_table
  kept s =
      any-filter (λ (t : Table Value). t.name) n (λ name. not (table_is_ignored options name))
        s.tables
      ∙ ap (λ b. not (table_is_ignored options n) && b)
          (sym (any-is_some (λ (t : Table Value). t.name) n s.tables))

  created :
      any (λ create. create.table.name == n) (create_tables options previous next)
      ≡ (not (has_table previous n) && (not (table_is_ignored options n) && has_table next n))
  unfolding create_tables created_tables
  created =
      any-map (λ (t : Table Value). t.name) n (λ create. create.table.name)
        (λ t. record { table = t }) (created_tables options previous next) (λ _. refl)
      ∙ any-filter (λ (t : Table Value). t.name) n (λ name. not (has_table previous name))
          (kept_tables options next)
      ∙ ap (λ b. not (has_table previous n) && b) (kept next)

  dropped : any (λ drop. drop.name == n) (drop_tables options previous next).0 ≡ (
      not (not (table_is_ignored options n) && has_table next n)
      && (not (table_is_ignored options n) && has_table previous n))
  unfolding drop_tables dropped_tables tables_match
  dropped =
      any-map (λ (t : Table Value). t.name) n (λ drop. drop.name) (λ t. record { name = t.name })
        (dropped_tables options previous next) (λ _. refl)
      ∙ any-filter (λ (t : Table Value). t.name) n
          (λ name. not (any (λ u. name == u.name) (kept_tables options next)))
          (kept_tables options previous)
      ∙ ap (λ b. not b && any (λ t. t.name == n) (kept_tables options previous))
          (any_flipped (λ (t : Table Value). t.name) n (kept_tables options next) ∙ kept next)
      ∙ ap (λ b. not (not (table_is_ignored options n) && has_table next n) && b) (kept previous)

  -- The steps between any two schemas, run on the names of the previous one's tables, leave a name
  -- there just where the next schema has a table of that name; or, if the name is ignored, just where
  -- the previous schema has one.
  pub tables_refined :
      (value_eq : Value → Value → Bool) (family : SqlFamily)
      → run table_names_after
          (into_steps (diff value_eq options family previous next))
          (has_table previous)
          n
        ≡ (if table_is_ignored options n then has_table previous n else has_table next n)
  unfolding diff
  tables_refined value_eq family =
      tables_left (diff value_eq options family previous next) (has_table previous) n
      ∙ ap
          (λ b.
            not b
            && (any (λ create. create.table.name == n) (create_tables options previous next)
                || has_table previous n))
          dropped
      ∙ ap
          (λ b.
            not (
              not (not (table_is_ignored options n) && has_table next n)
              && (not (table_is_ignored options n) && has_table previous n))
            && (b || has_table previous n))
          created
      ∙ settled (table_is_ignored options n) (has_table previous n) (has_table next n)

-- A schema's enum by its name.
abbrev pub has_enum : {Value : Type 0} → SqlSchema Value → String → Bool
has_enum s n = any (λ e. e.name == n) s.enums

module _ {Value : Type 0} (previous next : SqlSchema Value) (n : String) where
  created_enum :
      any (λ create. create.name == n) (create_enums previous next)
      ≡ (not (has_enum previous n) && has_enum next n)
  unfolding create_enums enums_match
  created_enum =
      any-map (λ (e : Enum). e.name) n (λ create. create.name)
        (λ e. record { name = e.name; variants = e.values }) _ (λ _. refl)
      ∙ any-filter (λ (e : Enum). e.name) n (λ name. not (any (λ p. p.name == name) previous.enums))
          next.enums

  dropped_enum :
      any (λ drop. drop.name == n) (drop_enums previous next)
      ≡ (not (has_enum next n) && has_enum previous n)
  unfolding drop_enums enums_match
  dropped_enum =
      any-map (λ (e : Enum). e.name) n (λ drop. drop.name) (λ e. record { name = e.name }) _
        (λ _. refl)
      ∙ any-filter (λ (e : Enum). e.name) n (λ name. not (any (λ p. name == p.name) next.enums))
          previous.enums
      ∙ ap (λ b. not b && has_enum previous n) (any_flipped (λ (e : Enum). e.name) n next.enums)

  -- The steps between any two schemas, run on the names of the previous one's enums, leave just the
  -- names of the next one's.
  pub enums_refined :
      (value_eq : Value → Value → Bool) (options : DiffingOptions) (family : SqlFamily)
      → run enum_names_after
          (into_steps (diff value_eq options family previous next))
          (has_enum previous)
          n
        ≡ has_enum next n
  unfolding diff
  enums_refined value_eq options family =
      enums_left (diff value_eq options family previous next) (has_enum previous) n
      ∙ ap
          (λ b.
            not b
            && (any (λ create. create.name == n) (create_enums previous next)
                || has_enum previous n))
          dropped_enum
      ∙ ap (λ b. not (not (has_enum next n) && has_enum previous n) && (b || has_enum previous n))
          created_enum
      ∙ settled false (has_enum previous n) (has_enum next n)
