-- ===== src/Steps.antt =====
-- The migration steps: migration-engine/connectors/migration-connector/src/steps.rs, without the
-- serialisation that the derives generate.
pub mod Location
use prisma_engines.Prelude.{
  ℕ, zero, suc, String, Bool, true, false, ◌||◌, Option, List, is_some, length,
}
use Location.{FieldArity, MigrationExpression, DirectiveLocation, ArgumentLocation}

pub record CreateModel : Type 0 where
  pub model : String

pub record UpdateModel : Type 0 where
  pub model : String
  pub new_name : Option String

unfoldable pub UpdateModel_is_any_option_set : UpdateModel → Bool
UpdateModel_is_any_option_set self = is_some self.new_name

pub record DeleteModel : Type 0 where
  pub model : String

pub record CreateField : Type 0 where
  pub model : String
  pub field : String
  pub tpe : String
  pub arity : FieldArity

pub record UpdateField : Type 0 where
  pub model : String
  pub field : String
  pub new_name : Option String
  pub tpe : Option String
  pub arity : Option FieldArity

unfoldable pub UpdateField_is_any_option_set : UpdateField → Bool
UpdateField_is_any_option_set self = is_some self.new_name || is_some self.tpe || is_some self.arity

pub record DeleteField : Type 0 where
  pub model : String
  pub field : String

pub record CreateEnum : Type 0 where
  pub enum : String
  pub values : List String

pub record UpdateEnum : Type 0 where
  pub enum : String
  pub new_name : Option String
  pub created_values : List String
  pub deleted_values : List String

abbrev is_positive : ℕ → Bool
is_positive zero = false
is_positive (suc n) = true

unfoldable pub UpdateEnum_is_any_option_set : UpdateEnum → Bool
UpdateEnum_is_any_option_set self =
    is_some self.new_name
    || is_positive (length self.created_values)
    || is_positive (length self.deleted_values)

pub record DeleteEnum : Type 0 where
  pub enum : String

pub record CreateDirective : Type 0 where
  pub location : DirectiveLocation

pub record DeleteDirective : Type 0 where
  pub location : DirectiveLocation

pub record CreateArgument : Type 0 where
  pub location : ArgumentLocation
  pub argument : String
  pub value : MigrationExpression

pub record DeleteArgument : Type 0 where
  pub location : ArgumentLocation
  pub argument : String

pub record UpdateArgument : Type 0 where
  pub location : ArgumentLocation
  pub argument : String
  pub new_value : MigrationExpression

pub record CreateTypeAlias : Type 0 where
  pub type_alias : String
  pub type : String
  pub arity : FieldArity

pub record UpdateTypeAlias : Type 0 where
  pub type_alias : String
  pub type : Option String

unfoldable pub UpdateTypeAlias_is_any_option_set : UpdateTypeAlias → Bool
UpdateTypeAlias_is_any_option_set self = is_some self.type

pub record DeleteTypeAlias : Type 0 where
  pub type_alias : String

pub record CreateSource : Type 0 where
  pub source : String

pub record DeleteSource : Type 0 where
  pub source : String

pub data MigrationStep : Type 0 where
  create_model : CreateModel → MigrationStep
  update_model : UpdateModel → MigrationStep
  delete_model : DeleteModel → MigrationStep
  create_directive : CreateDirective → MigrationStep
  delete_directive : DeleteDirective → MigrationStep
  create_argument : CreateArgument → MigrationStep
  update_argument : UpdateArgument → MigrationStep
  delete_argument : DeleteArgument → MigrationStep
  create_field : CreateField → MigrationStep
  delete_field : DeleteField → MigrationStep
  update_field : UpdateField → MigrationStep
  create_enum : CreateEnum → MigrationStep
  update_enum : UpdateEnum → MigrationStep
  delete_enum : DeleteEnum → MigrationStep
  create_type_alias : CreateTypeAlias → MigrationStep
  update_type_alias : UpdateTypeAlias → MigrationStep
  delete_type_alias : DeleteTypeAlias → MigrationStep
  create_source : CreateSource → MigrationStep
  delete_source : DeleteSource → MigrationStep
