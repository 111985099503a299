-- ===== src/Calculator/Fields.antt =====
-- The steps on the fields of a model:
-- migration-engine/core/src/migration/datamodel_calculator.rs.
use mathlib.Core.Option
use prisma_engines.Prelude.{
  String, false, not, Option, none, some, [], ◌∷◌, ◌++◌, ◌==◌, if◌then◌else◌, is_some, is_none,
  filter, ok, err, ok_or, unwrap, ◌>>=◌,
}
use prisma_engines.Ast.Node
use prisma_engines.Ast.Node.{Field}
use prisma_engines.Ast.Schema.{SchemaAst, find_model, find_model_mut, find_field, find_field_mut}
use prisma_engines.Steps.{CreateField, UpdateField, DeleteField}
use prisma_engines.Steps.Location.{into_ast_arity}
use prisma_engines.Calculator.Errors.{
  Calculated, field_exists, create_field_unknown_model, update_field_unknown_model,
  delete_field_unknown_model, field_missing_update, field_missing_delete,
}
use prisma_engines.Calculator.Tops.{new_span, new_ident}

abbrev pub new_field : CreateField → Field
new_field step = record {
  arity = into_ast_arity step.arity;
  name = new_ident step.field;
  documentation = none;
  field_type = new_ident step.tpe;
  span = new_span;
  directives = [];
  default_value = none;
  is_commented_out = false;
}

unfoldable pub apply_create_field : SchemaAst → CreateField → Calculated SchemaAst
apply_create_field datamodel step =
    if is_some (find_field datamodel step.model step.field)
    then err (field_exists step.field step.model)
    else (do
      m ← ok_or (find_model_mut datamodel step.model) (create_field_unknown_model step.model)
      ok (m.put (record (m.value) { fields = m.value.fields ++ new_field step ∷ [] })))

unfoldable pub apply_field_update {ℓ} :
    {T : Type ℓ} → Field → Option T → (Field → T → Field) → Field
apply_field_update field none apply_fn = field
apply_field_update field (some update) apply_fn = apply_fn field update

unfoldable pub update_field_arity : Field → Node.FieldArity → Field
update_field_arity field new_arity = record field { arity = new_arity }

unfoldable pub update_field_type : Field → String → Field
update_field_type field new_type = record field { field_type = new_ident new_type }

unfoldable pub update_field_name : Field → String → Field
update_field_name field new_name = record field { name = new_ident new_name }

unfoldable pub apply_update_field : SchemaAst → UpdateField → Calculated SchemaAst
unfolding apply_field_update update_field_arity update_field_type update_field_name
apply_update_field datamodel step =
    if is_none (find_model datamodel step.model)
    then err (update_field_unknown_model step.model)
    else (do
      field ←
          ok_or (find_field_mut datamodel step.model step.field)
            (field_missing_update step.field step.model)
      let aritied =
          apply_field_update field.value (Option.map into_ast_arity step.arity) update_field_arity
      let typed = apply_field_update aritied step.tpe update_field_type
      ok (field.put (apply_field_update typed step.new_name update_field_name)))

unfoldable pub apply_delete_field : SchemaAst → DeleteField → Calculated SchemaAst
apply_delete_field datamodel step = do
  found_model ← ok_or (find_model datamodel step.model) (delete_field_unknown_model step.model)
  found_field ←
      ok_or (find_field datamodel step.model step.field)
        (field_missing_delete step.field step.model)
  m ← unwrap (find_model_mut datamodel step.model)
  ok (
      m.put (record (m.value) {
        fields = filter (λ field. not (field.name.name == step.field)) m.value.fields;
      }))
