-- ===== src/Sql/Settled.antt =====
-- A column after the changes that are made in place, and the next one:
-- migration-engine/connectors/sql-migration-connector/src/sql_schema_differ/column.rs.
use prisma_engines.Prelude.{
  ◌==◌, ◌≡◌, refl, ◌∙◌, not, ◌||◌, Bool, true, false, List, [], ◌∷◌, if◌then◌else◌, arith, eq_iff,
}
use prisma_engines.Sql.Schema.{ColumnArity, arity_eq, Column}
use prisma_engines.Sql.Differ.Column.{
  DiffingOptions, ColumnChange, type_changed, present, when_changed, defaults_match, all_changes,
}
use prisma_engines.Sql.Reflexive.{type_changed_self, default_eq_self}
use prisma_engines.Sql.InPlace.{is_relaxed}

relaxed_nullable :
    (a b : ColumnArity) → is_relaxed a b ≡ true → arity_eq ColumnArity.nullable b ≡ true
unfolding arity_eq
relaxed_nullable a ColumnArity.nullable h = refl
relaxed_nullable a ColumnArity.required h = ground arith
relaxed_nullable a ColumnArity.list h = ground arith

-- The changes by their tests, of columns of one name.
unfoldable pub by_tests : Bool → Bool → Bool → List ColumnChange
by_tests t e m = present (
    when_changed t ColumnChange.tpe
    ∷ when_changed (not e) ColumnChange.arity
    ∷ when_changed (not m) ColumnChange.default
    ∷ [])

module _ {Value : Type 0} (value_eq : Value → Value → Bool) (options : DiffingOptions)
    (next : Column Value) where
  pub all_changes_lem :
      (column : Column Value)
      → column.name ≡ next.name
      → all_changes value_eq options column next
        ≡ by_tests
            (type_changed options column.tpe.family next.tpe.family)
            (arity_eq column.tpe.arity next.tpe.arity)
            (defaults_match value_eq column next)
  unfolding all_changes by_tests present when_changed
  all_changes_lem column named =
      let same_name : (column.name == next.name) ≡ true =
        ground (arith, eq_iff column.name next.name) in
      rw same_name refl

module _ {Value : Type 0} (previous next : Column Value) where
  -- The previous column with what the changes take from the next one.
  abbrev pub changed : Bool → Bool → Bool → Column Value
  changed t e m = record previous {
    tpe = record previous.tpe {
      family = if t then next.tpe.family else previous.tpe.family;
      arity = if e then previous.tpe.arity else ColumnArity.nullable;
    };
    default = if m then previous.default else next.default;
  }

module _ {Value : Type 0} (value_eq : Value → Value → Bool)
    (value_eq_refl : (v : Value) → value_eq v v ≡ true) (options : DiffingOptions)
    (previous next : Column Value) (same : previous.name ≡ next.name) where
  family_settled :
      (t : Bool)
      → type_changed options previous.tpe.family next.tpe.family ≡ t
      → type_changed options (if t then next.tpe.family else previous.tpe.family) next.tpe.family
        ≡ false
  family_settled true h = type_changed_self options next.tpe.family
  family_settled false h = h

  arity_settled :
      (e : Bool)
      → arity_eq previous.tpe.arity next.tpe.arity ≡ e
      → (e || is_relaxed previous.tpe.arity next.tpe.arity) ≡ true
      → arity_eq (if e then previous.tpe.arity else ColumnArity.nullable) next.tpe.arity ≡ true
  arity_settled true h relaxed = h
  arity_settled false h relaxed = relaxed_nullable previous.tpe.arity next.tpe.arity relaxed

  default_settled :
      (t e m : Bool)
      → defaults_match value_eq previous next ≡ m
      → defaults_match value_eq (changed previous next t e m) next ≡ true
  unfolding defaults_match
  default_settled t e true h = h
  default_settled t e false h = ground (arith, default_eq_self value_eq value_eq_refl next.default)

  pub changed-settled :
      (t e m : Bool)
      → type_changed options previous.tpe.family next.tpe.family ≡ t
      → arity_eq previous.tpe.arity next.tpe.arity ≡ e
      → defaults_match value_eq previous next ≡ m
      → (e || is_relaxed previous.tpe.arity next.tpe.arity) ≡ true
      → all_changes value_eq options (changed previous next t e m) next ≡ []
  unfolding by_tests present when_changed
  changed-settled t e m on_type on_arity on_default relaxed =
      all_changes_lem value_eq options next (changed previous next t e m) same
      ∙ rw (family_settled t on_type)
          (rw (arity_settled e on_arity relaxed) (rw (default_settled t e m on_default) refl))
