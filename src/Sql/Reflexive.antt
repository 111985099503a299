-- ===== src/Sql/Reflexive.antt =====
-- Tests of the schema differ on an entry and itself:
-- migration-engine/connectors/sql-migration-connector/src/sql_schema_differ.
use prisma_engines.Prelude.{
  String, ◌≡◌, refl, ap, not, Bool, true, false, Option, none, some, List, [], ◌∷◌, eq_refl, arith,
}
use prisma_engines.Sql.Schema.{
  names_eq, ColumnTypeFamily, family_eq, ColumnArity, arity_eq, ForeignKeyAction, action_eq,
  IndexType, index_type_eq, Column, DefaultValue, Index, ForeignKey,
}
use prisma_engines.Sql.Steps.{no_entries}
use prisma_engines.Sql.Differ.Column.{
  DiffingOptions, type_changed, present, when_changed, default_eq, defaults_match, all_changes,
  differs_in_something,
}
use prisma_engines.Sql.Differ.Table.{indexes_match, foreign_keys_match, foreign_key_changed}

pub names_eq_refl : (xs : List String) → names_eq xs xs ≡ true
unfolding names_eq
names_eq_refl [] = refl
names_eq_refl (x ∷ xs) = rw (eq_refl x) (names_eq_refl xs)

pub family_eq_refl : (f : ColumnTypeFamily) → family_eq f f ≡ true
unfolding family_eq
family_eq_refl ColumnTypeFamily.int = refl
family_eq_refl (ColumnTypeFamily.enum a) = eq_refl a
family_eq_refl (ColumnTypeFamily.unsupported a) = eq_refl a
family_eq_refl _ = refl

pub arity_eq_refl : (a : ColumnArity) → arity_eq a a ≡ true
unfolding arity_eq
arity_eq_refl ColumnArity.required = refl
arity_eq_refl _ = refl

pub action_eq_refl : (a : ForeignKeyAction) → action_eq a a ≡ true
unfolding action_eq
action_eq_refl ForeignKeyAction.no_action = refl
action_eq_refl _ = refl

pub index_type_eq_refl : (t : IndexType) → index_type_eq t t ≡ true
unfolding index_type_eq
index_type_eq_refl IndexType.unique = refl
index_type_eq_refl IndexType.normal = refl

pub indexes_match_refl : (i : Index) → indexes_match i i ≡ true
unfolding indexes_match
indexes_match_refl i = rw (names_eq_refl i.columns) (index_type_eq_refl i.tpe)

pub foreign_keys_match_refl : (fk : ForeignKey) → foreign_keys_match fk fk ≡ true
unfolding foreign_keys_match
foreign_keys_match_refl fk =
    rw (eq_refl fk.referenced_table, names_eq_refl fk.referenced_columns, names_eq_refl fk.columns)
      (action_eq_refl fk.on_delete_action)

pub foreign_key_changed_self : (o : Option ForeignKey) → foreign_key_changed o o ≡ false
unfolding foreign_key_changed
foreign_key_changed_self none = refl
foreign_key_changed_self (some fk) = ap not (foreign_keys_match_refl fk)

pub type_changed_self :
    (options : DiffingOptions) (f : ColumnTypeFamily) → type_changed options f f ≡ false
unfolding type_changed
type_changed_self options f = ground (arith, family_eq_refl f)

module _ {Value : Type 0} (value_eq : Value → Value → Bool)
    (value_eq_refl : (v : Value) → value_eq v v ≡ true) where
  pub default_eq_self : (d : Option (DefaultValue Value)) → default_eq value_eq d d ≡ true
  unfolding default_eq
  default_eq_self none = refl
  default_eq_self (some (DefaultValue.value v)) = value_eq_refl v
  default_eq_self (some DefaultValue.now) = refl
  default_eq_self (some (DefaultValue.sequence s)) = refl
  default_eq_self (some (DefaultValue.dbgenerated s)) = refl

  defaults_match_self : (c : Column Value) → defaults_match value_eq c c ≡ true
  unfolding defaults_match
  defaults_match_self c = ground (arith, default_eq_self c.default)

  pub differs_self :
      (options : DiffingOptions) (c : Column Value)
      → differs_in_something value_eq options c c ≡ false
  unfolding differs_in_something all_changes present when_changed no_entries
  differs_self options c =
      rw
        (
          eq_refl c.name,
          type_changed_self options c.tpe.family,
          arity_eq_refl c.tpe.arity,
          defaults_match_self c,
        )
        refl
