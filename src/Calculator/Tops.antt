-- ===== src/Calculator/Tops.antt =====
-- The steps on models, enums, type aliases and sources as such:
-- migration-engine/core/src/migration/datamodel_calculator.rs. A step returns the schema that the
-- code leaves in `datamodel`.
use prisma_engines.Prelude.{
  String, Bool, false, Option, none, some, List, [], ◌∷◌, ◌++◌, map, ◌==◌, if◌then◌else◌, is_some,
  is_none, filter, find, ok, err, ok_or, ◌>>=◌,
}
use prisma_engines.Ast.Span.{Span, Span_empty, Identifier, Identifier_new}
use prisma_engines.Ast.Node.{Top, Enum, EnumValue, Model, SourceConfig, Field}
use prisma_engines.Ast.Kind.{keeps, model_kind, enum_kind, source_kind, type_kind}
use prisma_engines.Ast.Schema.{
  SchemaAst, find_source, find_model, find_model_mut, find_enum, find_enum_mut, find_type_alias,
  find_type_alias_mut,
}
use prisma_engines.Steps.{
  CreateModel, UpdateModel, DeleteModel, CreateEnum, UpdateEnum, DeleteEnum, CreateTypeAlias,
  UpdateTypeAlias, DeleteTypeAlias, CreateSource, DeleteSource,
}
use prisma_engines.Steps.Location.{into_ast_arity}
use prisma_engines.Calculator.Errors.{
  Calculated, source_exists, source_missing, enum_exists, enum_missing_update, enum_missing_delete,
  model_exists, model_missing_update, model_missing_delete, type_exists, type_unknown,
  type_missing_delete,
}

abbrev pub new_span : Span
new_span = Span_empty

abbrev pub new_ident : String → Identifier
new_ident name = record { name = name; span = new_span }

-- `datamodel.tops.push(top)`
abbrev pub push_top : SchemaAst → Top → SchemaAst
push_top datamodel top = record { tops = datamodel.tops ++ top ∷ [] }

-- `tops.drain(..).filter(keep).collect()`
abbrev pub retain_tops : SchemaAst → (Top → Bool) → SchemaAst
retain_tops datamodel keep = record { tops = filter keep datamodel.tops }

abbrev pub new_source : String → SourceConfig
new_source name = record {
  name = new_ident name;
  properties = [];
  documentation = none;
  span = new_span;
}

unfoldable pub apply_create_source : SchemaAst → CreateSource → Calculated SchemaAst
apply_create_source datamodel step =
    if is_some (find_source datamodel step.source)
    then err (source_exists step.source)
    else ok (push_top datamodel (Top.source (new_source step.source)))

-- The code looks the source up among the models.
unfoldable pub apply_delete_source : SchemaAst → DeleteSource → Calculated SchemaAst
apply_delete_source datamodel step = do
  found ← ok_or (find_model datamodel step.source) (source_missing step.source)
  ok (retain_tops datamodel (keeps source_kind step.source))

abbrev pub new_enum_value : String → EnumValue
new_enum_value value_name = record {
  name = Identifier_new value_name;
  directives = [];
  documentation = none;
  span = new_span;
  commented_out = false;
}

abbrev pub new_enum : String → List String → Enum
new_enum name values = record {
  name = new_ident name;
  values = map new_enum_value values;
  directives = [];
  documentation = none;
  span = new_span;
}

unfoldable pub apply_create_enum : SchemaAst → CreateEnum → Calculated SchemaAst
apply_create_enum datamodel step =
    if is_some (find_enum datamodel step.enum)
    then err (enum_exists step.enum)
    else ok (push_top datamodel (Top.enum (new_enum step.enum step.values)))

unfoldable pub apply_enum_update {ℓ} : {T : Type ℓ} → Enum → Option T → (Enum → T → Enum) → Enum
apply_enum_update enum none apply_fn = enum
apply_enum_update enum (some update) apply_fn = apply_fn enum update

unfoldable pub update_enum_name : Enum → String → Enum
update_enum_name enum new_name = record enum { name = new_ident new_name }

unfoldable pub add_enum_values : Enum → List String → Enum
add_enum_values enum added_values = record enum {
  values = enum.values ++ map new_enum_value added_values;
}

unfoldable pub remove_enum_values : Enum → List String → Enum
remove_enum_values enum removed_values = record enum {
  values =
      filter
        (λ value. is_none (find (λ removed_value. removed_value == value.name.name) removed_values))
        enum.values;
}

unfoldable pub apply_update_enum : SchemaAst → UpdateEnum → Calculated SchemaAst
unfolding apply_enum_update update_enum_name add_enum_values remove_enum_values
apply_update_enum datamodel step = do
  enum ← ok_or (find_enum_mut datamodel step.enum) (enum_missing_update step.enum)
  let renamed = apply_enum_update enum.value step.new_name update_enum_name
  let extended = add_enum_values renamed step.created_values
  ok (enum.put (remove_enum_values extended step.deleted_values))

unfoldable pub apply_delete_enum : SchemaAst → DeleteEnum → Calculated SchemaAst
apply_delete_enum datamodel step = do
  found ← ok_or (find_enum datamodel step.enum) (enum_missing_delete step.enum)
  ok (retain_tops datamodel (keeps enum_kind step.enum))

abbrev pub new_model : String → Model
new_model name = record {
  name = new_ident name;
  fields = [];
  directives = [];
  documentation = none;
  span = new_span;
  commented_out = false;
}

unfoldable pub apply_create_model : SchemaAst → CreateModel → Calculated SchemaAst
apply_create_model datamodel step =
    if is_some (find_model datamodel step.model)
    then err (model_exists step.model)
    else ok (push_top datamodel (Top.model (new_model step.model)))

unfoldable pub apply_model_update {ℓ} :
    {T : Type ℓ} → Model → Option T → (Model → T → Model) → Model
apply_model_update model none apply_fn = model
apply_model_update model (some update) apply_fn = apply_fn model update

unfoldable pub update_model_name : Model → String → Model
update_model_name model new_name = record model { name = new_ident new_name }

unfoldable pub apply_update_model : SchemaAst → UpdateModel → Calculated SchemaAst
unfolding apply_model_update update_model_name
apply_update_model datamodel step = do
  model ← ok_or (find_model_mut datamodel step.model) (model_missing_update step.model)
  ok (model.put (apply_model_update model.value step.new_name update_model_name))

unfoldable pub apply_delete_model : SchemaAst → DeleteModel → Calculated SchemaAst
apply_delete_model datamodel step = do
  found ← ok_or (find_model datamodel step.model) (model_missing_delete step.model)
  ok (retain_tops datamodel (keeps model_kind step.model))

abbrev pub new_type_alias : CreateTypeAlias → Field
new_type_alias step = record {
  documentation = none;
  name = new_ident step.type_alias;
  span = new_span;
  default_value = none;
  arity = into_ast_arity step.arity;
  directives = [];
  field_type = new_ident step.type;
  is_commented_out = false;
}

unfoldable pub apply_create_type_alias : SchemaAst → CreateTypeAlias → Calculated SchemaAst
apply_create_type_alias datamodel step =
    if is_some (find_type_alias datamodel step.type_alias)
    then err (type_exists step.type_alias)
    else ok (push_top datamodel (Top.type (new_type_alias step)))

abbrev pub retype : Field → Option String → Field
retype type_alias none = type_alias
retype type_alias (some type) = record type_alias { field_type = new_ident type }

unfoldable pub apply_update_type_alias : SchemaAst → UpdateTypeAlias → Calculated SchemaAst
apply_update_type_alias datamodel step = do
  type_alias ← ok_or (find_type_alias_mut datamodel step.type_alias) (type_unknown step.type_alias)
  ok (type_alias.put (retype type_alias.value step.type))

unfoldable pub apply_delete_type_alias : SchemaAst → DeleteTypeAlias → Calculated SchemaAst
apply_delete_type_alias datamodel step = do
  found ← ok_or (find_type_alias datamodel step.type_alias) (type_missing_delete step.type_alias)
  ok (retain_tops datamodel (keeps type_kind step.type_alias))
