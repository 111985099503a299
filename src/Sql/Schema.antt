-- ===== src/Sql/Schema.antt =====
-- The described SQL schema: libs/sql-schema-describer/src/lib.rs. The values of defaults
-- (`PrismaValue`, over third-party dates and decimals) are a parameter.
use mathlib.Core.Int.{ℤ}
use prisma_engines.Prelude.{
  ℕ, String, ◌==◌, ◌&&◌, Bool, true, false, Option, is_some, List, [], ◌∷◌, find, any, Outcome,
  unwrap, ok_or,
}

-- `==` on lists of names, and `contains`.
unfoldable pub names_eq : List String → List String → Bool
names_eq [] [] = true
names_eq (x ∷ xs) (y ∷ ys) = (x == y) && names_eq xs ys
names_eq _ _ = false

unfoldable pub contains : List String → String → Bool
contains names name = any (λ x. x == name) names

pub data ColumnTypeFamily : Type 0 where
  int : ColumnTypeFamily
  float : ColumnTypeFamily
  boolean : ColumnTypeFamily
  string : ColumnTypeFamily
  date_time : ColumnTypeFamily
  binary : ColumnTypeFamily
  json : ColumnTypeFamily
  uuid : ColumnTypeFamily
  geometric : ColumnTypeFamily
  log_sequence_number : ColumnTypeFamily
  text_search : ColumnTypeFamily
  transaction_id : ColumnTypeFamily
  enum : String → ColumnTypeFamily
  unsupported : String → ColumnTypeFamily

pub data ColumnArity : Type 0 where
  required : ColumnArity
  nullable : ColumnArity
  list : ColumnArity

pub data ForeignKeyAction : Type 0 where
  no_action : ForeignKeyAction
  restrict : ForeignKeyAction
  cascade : ForeignKeyAction
  set_null : ForeignKeyAction
  set_default : ForeignKeyAction

pub data IndexType : Type 0 where
  unique : IndexType
  normal : IndexType

-- The derived equality tests.
unfoldable pub family_eq : ColumnTypeFamily → ColumnTypeFamily → Bool
family_eq int int = true
family_eq float float = true
family_eq boolean boolean = true
family_eq string string = true
family_eq date_time date_time = true
family_eq binary binary = true
family_eq json json = true
family_eq uuid uuid = true
family_eq geometric geometric = true
family_eq log_sequence_number log_sequence_number = true
family_eq text_search text_search = true
family_eq transaction_id transaction_id = true
family_eq (enum a) (enum b) = a == b
family_eq (unsupported a) (unsupported b) = a == b
family_eq _ _ = false

unfoldable pub arity_eq : ColumnArity → ColumnArity → Bool
arity_eq required required = true
arity_eq nullable nullable = true
arity_eq list list = true
arity_eq _ _ = false

unfoldable pub action_eq : ForeignKeyAction → ForeignKeyAction → Bool
action_eq no_action no_action = true
action_eq restrict restrict = true
action_eq cascade cascade = true
action_eq set_null set_null = true
action_eq set_default set_default = true
action_eq _ _ = false

unfoldable pub index_type_eq : IndexType → IndexType → Bool
index_type_eq unique unique = true
index_type_eq normal normal = true
index_type_eq _ _ = false

pub record ColumnType : Type 0 where
  pub data_type : String
  pub full_data_type : String
  pub character_maximum_length : Option ℤ
  pub family : ColumnTypeFamily
  pub arity : ColumnArity

pub data DefaultValue (Value : Type 0) : Type 0 where
  value : Value → DefaultValue Value
  now : DefaultValue Value
  sequence : String → DefaultValue Value
  dbgenerated : String → DefaultValue Value

pub record Column (Value : Type 0) : Type 0 where
  pub name : String
  pub tpe : ColumnType
  pub default : Option (DefaultValue Value)
  pub auto_increment : Bool

pub record Index : Type 0 where
  pub name : String
  pub columns : List String
  pub tpe : IndexType

pub record Sequence : Type 0 where
  pub name : String
  pub initial_value : ℕ
  pub allocation_size : ℕ

pub record PrimaryKey : Type 0 where
  pub columns : List String
  pub sequence : Option Sequence

pub record ForeignKey : Type 0 where
  pub constraint_name : Option String
  pub columns : List String
  pub referenced_table : String
  pub referenced_columns : List String
  pub on_delete_action : ForeignKeyAction

pub record Enum : Type 0 where
  pub name : String
  pub values : List String

pub record Table (Value : Type 0) : Type 0 where
  pub name : String
  pub columns : List (Column Value)
  pub indices : List Index
  pub primary_key : Option PrimaryKey
  pub foreign_keys : List ForeignKey

pub record SqlSchema (Value : Type 0) : Type 0 where
  pub tables : List (Table Value)
  pub enums : List Enum
  pub sequences : List Sequence

module _ {Value : Type 0} where
  unfoldable pub SqlSchema_empty : SqlSchema Value
  SqlSchema_empty = record { tables = []; enums = []; sequences = [] }

  unfoldable pub get_table : SqlSchema Value → String → Option (Table Value)
  get_table schema name = find (λ t. t.name == name) schema.tables

  unfoldable pub has_table : SqlSchema Value → String → Bool
  has_table schema name = is_some (get_table schema name)

  -- The message of the error names the table.
  unfoldable pub table : SqlSchema Value → String → Outcome String (Table Value)
  table schema name = ok_or (find (λ t. t.name == name) schema.tables) name

  unfoldable pub column : Table Value → String → Option (Column Value)
  column t name = find (λ c. c.name == name) t.columns

  unfoldable pub column_bang : Table Value → String → Outcome String (Column Value)
  unfolding column
  column_bang t name = unwrap (column t name)

  unfoldable pub foreign_key_for_column : Table Value → String → Option ForeignKey
  foreign_key_for_column t name = find (λ fk. contains fk.columns name) t.foreign_keys
