-- ===== src/Examples/Applying.antt =====
-- The calculator of migration-engine/core/src/migration/datamodel_calculator.rs at concrete steps.
use mathlib.Core.List.{filter_map}
use prisma_engines.Prelude.{
  String, ◌≢◌, false≢true, ap, ◌==◌, Ref, some, eq_refl, find_map_mut, ◌≡◌, refl, [], ◌∷◌, ◌++◌, ok,
  filter, find,
}
use prisma_engines.Calculator.Fields.{apply_create_field, new_field}
use prisma_engines.Calculator.OtherModels.{apply_step-find_model}
use prisma_engines.Ast.Node.{Model, Enum, Top, as_model, as_enum, as_type_alias}
use prisma_engines.Ast.Schema.{
  find_model_mut, find_enum_mut, find_field, SchemaAst, generators, find_model, find_enum,
  find_type_alias,
}
use prisma_engines.Ast.Schema.Lens.{find_model_mut-find_model, find_enum_mut-find_enum}
use prisma_engines.Steps.{
  create_field, delete_field, MigrationStep, create_model, delete_model, create_enum, delete_enum,
  create_type_alias, delete_type_alias,
}
use prisma_engines.Calculator.UndoField.{delete-create_field}
use prisma_engines.Examples.{
  user, parse_constant, directive, field, color, database, client, schema,
}
use prisma_engines.Steps
use prisma_engines.Steps.Location
use prisma_engines.Steps.Location.{to_ast_expression, DirectivePath, matches_ast_directive}
use prisma_engines.Calculator.Tops.{apply_delete_model}
use prisma_engines.Calculator.Apply.{apply, apply_step}
use prisma_engines.Calculator.Kinds.{models}
use prisma_engines.Calculator.Others.{others, apply_step-others, apply-generators}
use prisma_engines.Calculator.Undo.{
  delete-create_model, delete-create_enum, delete-create_type_alias,
}

-- A step that succeeds on the schema.
abbrev drop_user : MigrationStep
drop_user = delete_model (record { model = "User" })

abbrev without_user : SchemaAst
without_user = record {
  tops =
      Top.generator client
      ∷ Top.source database
      ∷ Top.enum color
      ∷ Top.type (field "Email" "String" (directive "unique" [] ∷ []))
      ∷ [];
}

drop_user-applies : apply_step parse_constant schema drop_user ≡ ok without_user
unfolding apply_step apply_delete_model find_model find filter filter_map as_model
drop_user-applies = refl

apply_step-others_example : others models without_user ≡ others models schema
apply_step-others_example =
    apply_step-others parse_constant schema without_user drop_user drop_user-applies

drop_user-applies_all : apply parse_constant schema (drop_user ∷ []) ≡ ok without_user
unfolding apply apply_step apply_delete_model find_model find filter filter_map as_model
drop_user-applies_all = refl

apply-generators_example : generators without_user ≡ generators schema
apply-generators_example =
    apply-generators parse_constant schema without_user (drop_user ∷ []) drop_user-applies_all

delete-create_model_example :
    apply parse_constant schema
      (create_model (record { model = "Post" }) ∷ delete_model (record { model = "Post" }) ∷ [])
    ≡ ok schema
unfolding find_model find filter_map as_model
delete-create_model_example = delete-create_model parse_constant schema "Post" refl

delete-create_enum_example :
    apply parse_constant schema (
      create_enum (record { enum = "Size"; values = "Small" ∷ "Big" ∷ [] })
      ∷ delete_enum (record { enum = "Size" })
      ∷ [])
    ≡ ok schema
unfolding find_enum find filter_map as_enum
delete-create_enum_example =
    delete-create_enum parse_constant schema "Size" ("Small" ∷ "Big" ∷ []) refl

abbrev create_url : Steps.CreateTypeAlias
create_url = record { type_alias = "Url"; type = "String"; arity = Location.FieldArity.required }

delete-create_type_alias_example :
    apply parse_constant schema
      (create_type_alias create_url ∷ delete_type_alias (record { type_alias = "Url" }) ∷ [])
    ≡ ok schema
unfolding find_type_alias find filter_map as_type_alias
delete-create_type_alias_example = delete-create_type_alias parse_constant schema create_url refl

-- The places of the model and the enum of the schema.
abbrev user_ref : Ref SchemaAst Model
user_ref = record {
  value = user;
  put = λ m. record {
    tops =
        Top.generator client
        ∷ Top.model m
        ∷ Top.source database
        ∷ Top.enum color
        ∷ Top.type (field "Email" "String" (directive "unique" [] ∷ []))
        ∷ [];
  };
}

abbrev color_ref : Ref SchemaAst Enum
color_ref = record {
  value = color;
  put = λ e. record {
    tops =
        Top.generator client
        ∷ Top.model user
        ∷ Top.source database
        ∷ Top.enum e
        ∷ Top.type (field "Email" "String" (directive "unique" [] ∷ []))
        ∷ [];
  };
}

user-found : find_model_mut schema "User" ≡ some user_ref
unfolding find_model_mut find_map_mut as_model
user-found = refl

find_model_mut-find_model_example :
    (find_model schema "User" ≡ some user)
    × ((user_ref.put user ≡ schema)
        × (find_model_mut (user_ref.put (record user { fields = [] })) "User"
            ≡ some (record { value = record user { fields = [] }; put = user_ref.put })))
find_model_mut-find_model_example =
    find_model_mut-find_model schema "User" user_ref (record user { fields = [] }) user-found
      (eq_refl "User")

color-found : find_enum_mut schema "Color" ≡ some color_ref
unfolding find_enum_mut find_map_mut as_enum
color-found = refl

find_enum_mut-find_enum_example :
    (find_enum schema "Color" ≡ some color)
    × ((color_ref.put color ≡ schema)
        × (find_enum_mut (color_ref.put (record color { values = [] })) "Color"
            ≡ some (record { value = record color { values = [] }; put = color_ref.put })))
find_enum_mut-find_enum_example =
    find_enum_mut-find_enum schema "Color" color_ref (record color { values = [] }) color-found
      (eq_refl "Color")

abbrev create_age : Steps.CreateField
create_age = record {
  model = "User";
  field = "age";
  tpe = "Int";
  arity = Location.FieldArity.optional;
}

delete-create_field_example :
    apply parse_constant schema
      (create_field create_age ∷ delete_field (record { model = "User"; field = "age" }) ∷ [])
    ≡ ok schema
unfolding find_field find_model find filter_map as_model
delete-create_field_example =
    delete-create_field parse_constant schema create_age user_ref user-found refl

create_age-applies :
    apply_step parse_constant schema (create_field create_age)
    ≡ ok (user_ref.put (record user { fields = user.fields ++ new_field create_age ∷ [] }))
unfolding apply_step apply_create_field find_field find_model find_model_mut find find_map_mut
    filter_map as_model
create_age-applies = refl

post-apart : ◌≢◌ {A = String} "Post" "User"
post-apart e = false≢true (ap (λ (t : String). t == "User") e)

apply_step-find_model_example :
    find_model
      (user_ref.put (record user { fields = user.fields ++ new_field create_age ∷ [] }))
      "Post"
    ≡ find_model schema "Post"
apply_step-find_model_example =
    apply_step-find_model parse_constant schema
      (user_ref.put (record user { fields = user.fields ++ new_field create_age ∷ [] }))
      (create_field create_age) "User" "Post" refl post-apart create_age-applies
