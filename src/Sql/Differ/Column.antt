-- ===== src/Sql/Differ/Column.antt =====
-- The differ of two columns: migration-engine/connectors/sql-migration-connector/src/
-- sql_schema_differ/column.rs, and `DiffingOptions` of sql_schema_differ.rs. The regular expressions
-- of the ignored tables are a test of the name.
use prisma_engines.Prelude.{
  String, ◌==◌, not, ◌&&◌, Bool, true, false, Option, none, some, if◌then◌else◌, List, [], ◌∷◌,
}
use prisma_engines.Sql.Schema.{
  ColumnTypeFamily, family_eq, arity_eq, Column, DefaultValue, value, now, sequence, dbgenerated,
}
use prisma_engines.Sql.Steps.{no_entries}

pub record DiffingOptions : Type 0 where
  pub is_mariadb : Bool
  pub is_ignored : String → Bool

pub data ColumnChange : Type 0 where
  renaming : ColumnChange
  arity : ColumnChange
  default : ColumnChange
  tpe : ColumnChange

-- `MARIADB_ALIASES.contains`.
unfoldable pub is_mariadb_alias : ColumnTypeFamily → Bool
is_mariadb_alias ColumnTypeFamily.string = true
is_mariadb_alias ColumnTypeFamily.json = true
is_mariadb_alias _ = false

unfoldable pub type_changed : DiffingOptions → ColumnTypeFamily → ColumnTypeFamily → Bool
type_changed options previous next =
    if options.is_mariadb && (is_mariadb_alias previous && is_mariadb_alias next)
    then false
    else not (family_eq previous next)

-- The entries of the array of changes that are there.
unfoldable pub present : List (Option ColumnChange) → List ColumnChange
present [] = []
present (none ∷ rest) = present rest
present (some change ∷ rest) = change ∷ present rest

unfoldable pub when_changed : Bool → ColumnChange → Option ColumnChange
when_changed changed change = if changed then some change else none

module _ {Value : Type 0} (value_eq : Value → Value → Bool) where
  -- The table of `defaults_match`.
  unfoldable pub default_eq : Option (DefaultValue Value) → Option (DefaultValue Value) → Bool
  default_eq _ (some (dbgenerated _)) = true
  default_eq _ (some (sequence _)) = true
  default_eq (some (value a)) (some (value b)) = value_eq a b
  default_eq (some now) (some now) = true
  default_eq none none = true
  default_eq _ _ = false

  unfoldable pub defaults_match : Column Value → Column Value → Bool
  defaults_match previous next =
      if previous.auto_increment then true else default_eq previous.default next.default

  -- `all_changes().iter()`.
  unfoldable pub all_changes : DiffingOptions → Column Value → Column Value → List ColumnChange
  all_changes options previous next = present (
      when_changed (not (previous.name == next.name)) renaming
      ∷ when_changed (type_changed options previous.tpe.family next.tpe.family) tpe
      ∷ when_changed (not (arity_eq previous.tpe.arity next.tpe.arity)) arity
      ∷ when_changed (not (defaults_match previous next)) default
      ∷ [])

  unfoldable pub differs_in_something : DiffingOptions → Column Value → Column Value → Bool
  differs_in_something options previous next = not (no_entries (all_changes options previous next))
