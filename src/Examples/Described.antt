-- ===== src/Examples/Described.antt =====
-- The theorems on the SQL differ, at a shop's schema and a later version of it.
use prisma_engines.Prelude.{
  ◌≡◌, ◌≢◌, refl, inl, inr, String, ◌==◌, eq_refl, Bool, true, false, none, some, [], ◌∷◌, Outcome,
  ok, if◌then◌else◌,
}
use prisma_engines.Engine.Steps.{SqlMigration}
use prisma_engines.Sql.Schema.{
  ColumnTypeFamily, ColumnArity, IndexType, ForeignKeyAction, DefaultValue, Column, Index, Enum,
  Table, SqlSchema, has_table, names_eq, index_type_eq,
}
use prisma_engines.Sql.Steps.{SqlMigrationStep}
use prisma_engines.Sql.Differ.Column.{DiffingOptions}
use prisma_engines.Sql.Differ.Table.{indexes_match}
use prisma_engines.Sql.Differ.Diff.{SqlFamily, into_steps, diff, table_is_ignored}
use prisma_engines.Sql.Infer.{infer, is_sqlite}
use prisma_engines.Sql.Catalog.{table_names_after, enum_names_after, run}
use prisma_engines.Sql.Refines.{has_enum, tables_refined, enums_refined}
use prisma_engines.Sql.Phases.{InPhases, into_steps-InPhases}
use prisma_engines.Sql.IdleTable.{WellDescribed, twins}
use prisma_engines.Sql.Inferred.{infer_unchanged}
use prisma_engines.Sql.Total.{infer_total}
use prisma_engines.Sql.Twins.{diff_self-ne-nil}

-- Defaults are texts.
abbrev text_eq : String → String → Bool
text_eq a b = a == b

abbrev options : DiffingOptions
options = record { is_mariadb = false; is_ignored = λ name. name == "spatial_ref_sys" }

abbrev render : DefaultValue String → ColumnTypeFamily → Outcome String String
render _ _ = ok "0"

abbrev column : String → ColumnTypeFamily → ColumnArity → Column String
column name family arity = record {
  name = name;
  tpe = record {
    data_type = "";
    full_data_type = "";
    character_maximum_length = none;
    family = family;
    arity = arity;
  };
  default = none;
  auto_increment = false;
}

abbrev by_email : Index
by_email = record { name = "by_email"; columns = "email" ∷ []; tpe = IndexType.unique }

abbrev by_mail : Index
by_mail = record { name = "by_mail"; columns = "email" ∷ []; tpe = IndexType.unique }

abbrev email : Column String
email = column "email" ColumnTypeFamily.string ColumnArity.required

abbrev optional_email : Column String
optional_email = column "email" ColumnTypeFamily.string ColumnArity.nullable

abbrev user : Table String
user = record {
  name = "User";
  columns = column "id" ColumnTypeFamily.int ColumnArity.required ∷ email ∷ [];
  indices = by_email ∷ [];
  primary_key = some (record { columns = "id" ∷ []; sequence = none });
  foreign_keys = [];
}

abbrev order : Table String
order = record {
  name = "Order";
  columns = column "user" ColumnTypeFamily.int ColumnArity.required ∷ [];
  indices = [];
  primary_key = none;
  foreign_keys =
      record {
        constraint_name = some "Order_user";
        columns = "user" ∷ [];
        referenced_table = "User";
        referenced_columns = "id" ∷ [];
        on_delete_action = ForeignKeyAction.cascade;
      }
      ∷ [];
}

abbrev color : Enum
color = record { name = "Color"; values = "Red" ∷ "Blue" ∷ [] }

abbrev shop : SqlSchema String
shop = record { tables = user ∷ order ∷ []; enums = color ∷ []; sequences = [] }

-- The orders and the enum are gone, and the email is optional.
abbrev later_shop : SqlSchema String
later_shop = record {
  tables =
      record user {
        columns = column "id" ColumnTypeFamily.int ColumnArity.required ∷ optional_email ∷ [];
      }
      ∷ [];
  enums = [];
  sequences = [];
}

abbrev doubled : Table String
doubled = record user { indices = by_email ∷ by_mail ∷ [] }

abbrev doubled_shop : SqlSchema String
doubled_shop = record { tables = doubled ∷ []; enums = []; sequences = [] }

shop-WellDescribed : WellDescribed shop
unfolding indexes_match names_eq index_type_eq
shop-WellDescribed = record {
  tables = ((refl, tt), (tt, tt));
  enums = (tt, tt);
  columns = (((refl, tt), (tt, tt)), ((tt, tt), tt));
  indices = (((refl, tt), tt), (tt, tt));
}

infer_unchanged_example :
    infer text_eq options SqlFamily.sqlite render "main" shop shop
    ≡ ok (record {
      before = shop;
      after = shop;
      original_steps = [];
      corrected_steps = [];
      rollback = [];
    })
infer_unchanged_example =
    infer_unchanged text_eq eq_refl options render "main" shop shop-WellDescribed SqlFamily.sqlite

tables_refined_example :
    run table_names_after
      (into_steps (diff text_eq options SqlFamily.postgres shop later_shop))
      (has_table shop)
      "Order"
    ≡ (if table_is_ignored options "Order"
        then has_table shop "Order"
        else has_table later_shop "Order")
tables_refined_example = tables_refined options shop later_shop "Order" text_eq SqlFamily.postgres

enums_refined_example :
    run enum_names_after
      (into_steps (diff text_eq options SqlFamily.postgres shop later_shop))
      (has_enum shop)
      "Color"
    ≡ has_enum later_shop "Color"
enums_refined_example = enums_refined shop later_shop "Color" text_eq options SqlFamily.postgres

into_steps-InPhases_example :
    InPhases (into_steps (diff text_eq options SqlFamily.mysql shop later_shop))
into_steps-InPhases_example =
    into_steps-InPhases (diff text_eq options SqlFamily.mysql shop later_shop)

postgres_is_server : is_sqlite SqlFamily.postgres ≡ false
unfolding is_sqlite
postgres_is_server = refl

infer_total_example :
    (migration : SqlMigration (SqlSchema String) (SqlMigrationStep String)) × (infer text_eq options
        SqlFamily.postgres render "public" shop later_shop
      ≡ ok migration)
    × (migration.before ≡ shop)
    × (migration.after ≡ later_shop)
    × (migration.original_steps
        ≡ into_steps (diff text_eq options SqlFamily.postgres shop later_shop))
infer_total_example =
    infer_total text_eq options render "public" SqlFamily.postgres postgres_is_server shop
      later_shop ((refl, tt), (tt, tt)) (tt, tt)

are_twins : twins by_email by_mail ≡ true
unfolding indexes_match names_eq index_type_eq
are_twins = refl

diff_self-ne-nil_example :
    into_steps (diff text_eq options SqlFamily.sqlite doubled_shop doubled_shop) ≢ []
diff_self-ne-nil_example =
    diff_self-ne-nil text_eq options SqlFamily.sqlite doubled_shop doubled by_email by_mail (tt, tt)
      (inl refl) (inl refl) (inr (inl refl)) are_twins
