-- ===== src/Examples/Diffing.antt =====
-- The differ of migration-engine/core/src/migration/datamodel_differ.rs at concrete schemas.
use mathlib.Core.List.{filter_map}
use prisma_engines.Prelude.{
  ◌≡◌, refl, none, [], ◌∷◌, ok, err, arith, filter, any, find, ◌>>=◌, find_map_mut,
}
use prisma_engines.Ast.Node.{
  Top, Directive, as_model, as_enum, as_source, as_type_alias, EnumValue, Enum,
}
use prisma_engines.Ast.Schema.{SchemaAst, empty, find_model, find_enum_mut}
use prisma_engines.Steps.Location.{
  to_ast_expression, DirectivePath, matches_ast_directive, from_ast_expression,
}
use prisma_engines.Calculator.Errors.{source_missing, create_directive_absent}
use prisma_engines.Calculator.Apply.{apply}
use prisma_engines.Differ.Diff.{infer}
use prisma_engines.Differ.Directives.{directives_are_identical}
use prisma_engines.Differ.Push.{location_with_arguments}
use prisma_engines.Ast.Render.{render_value_to_string, render_value, StringBuilder_new, write, join}
use prisma_engines.Examples.{
  field, value, parse_constant, argument, directive, color, user, database, client, schema,
}
use prisma_engines.Differ.Alike.{
  Alike, FieldAlike-refl, EnumAlike-refl, SourceAlike-refl, DirectiveAlike-refl,
}
use prisma_engines.Roundtrip.Rebuilt.{EachArgument, PrintsBack, SchemaReadable, rebuilt}
use prisma_engines.Roundtrip.Names.{apply-infer-WellNamed}
use prisma_engines.Roundtrip.Settled.{infer-apply-infer}
use prisma_engines.Differ.Enums
use prisma_engines.Differ.Pairs.{created}
use prisma_engines.Differ.PushTypes.{push_updated_enum}
use prisma_engines.Roundtrip.EnumValues.{created_value_directive_fails}
use prisma_engines.Differ.Idle.{infer_alike}
use prisma_engines.Differ.RenameParts.{KeepsNames}
use prisma_engines.Differ.Renames.{infer-KeepsNames}
use prisma_engines.Differ.Repeated.{matches-identical}
use prisma_engines.Differ.Models.{
  regular_directives, directive_is_regular, directive_is_repeated, repeated_directives,
}
use prisma_engines.Differ.Top.{walk_type_aliases, walk_enums, walk_sources, walk_models}
use prisma_engines.WellNamed.{WellNamed}
use prisma_engines.Roundtrip.Whole.{apply-infer-empty}
use prisma_engines.Roundtrip.Erase.{is_generator, apply-infer_to_empty, delete_source_fails}

schema-WellNamed : WellNamed schema
unfolding walk_type_aliases walk_enums walk_sources walk_models filter_map as_model as_enum
    as_source as_type_alias regular_directives directive_is_regular directive_is_repeated filter any
schema-WellNamed = ground arith

schema-SchemaReadable : SchemaReadable parse_constant schema
unfolding to_ast_expression walk_type_aliases walk_enums walk_sources walk_models filter_map
    as_model as_enum as_source as_type_alias regular_directives repeated_directives
    directive_is_regular directive_is_repeated filter any
schema-SchemaReadable = ground arith

apply-infer-empty_example :
    apply parse_constant empty (infer empty schema) ≡ ok (rebuilt parse_constant schema)
apply-infer-empty_example =
    apply-infer-empty parse_constant schema schema-WellNamed schema-SchemaReadable

infer-KeepsNames_example : KeepsNames (infer schema empty)
infer-KeepsNames_example = infer-KeepsNames schema empty

-- A schema without a source.
abbrev no_source : SchemaAst
no_source = record { tops = Top.generator client ∷ Top.model user ∷ Top.enum color ∷ [] }

no_source-WellNamed : WellNamed no_source
unfolding walk_type_aliases walk_enums walk_sources walk_models filter_map as_model as_enum
    as_source as_type_alias regular_directives directive_is_regular directive_is_repeated filter any
no_source-WellNamed = ground arith

apply-infer_to_empty_example :
    apply parse_constant no_source (infer no_source empty)
    ≡ ok (record { tops = filter is_generator no_source.tops })
unfolding walk_sources filter_map as_source
apply-infer_to_empty_example =
    apply-infer_to_empty parse_constant no_source no_source-WellNamed refl

delete_source_fails_example :
    apply parse_constant schema (infer schema empty) ≡ err (source_missing "db")
unfolding walk_sources filter_map as_source as_model find_model find
delete_source_fails_example =
    delete_source_fails parse_constant schema schema-WellNamed database [] refl refl

-- Two repeated directives that differ in their arguments.
abbrev unique_a : Directive
unique_a = directive "unique" (argument "" "a" ∷ [])

abbrev unique_b : Directive
unique_b = directive "unique" (argument "" "b" ∷ [])

matches-identical_example :
    matches_ast_directive
      (location_with_arguments (DirectivePath.model "User" none) unique_a)
      unique_b
    ≡ directives_are_identical unique_b unique_a
matches-identical_example = matches-identical "User" unique_a unique_b

-- The schema with spans, documentation and entries of other kinds elsewhere.
abbrev moved : SchemaAst
moved = record {
  tops =
      Top.enum color
      ∷ Top.type (field "Email" "String" (directive "unique" [] ∷ []))
      ∷ Top.model (record user { span = record { start = 3; end = 8 } })
      ∷ Top.source database
      ∷ [];
}

moved-Alike : Alike moved schema
unfolding walk_type_aliases walk_enums walk_sources walk_models filter_map as_model as_enum
    as_source as_type_alias regular_directives repeated_directives directive_is_regular
    directive_is_repeated filter any
moved-Alike = record {
  aliases = (FieldAlike-refl _, tt);
  enums = (EnumAlike-refl _, tt);
  sources = (SourceAlike-refl _, tt);
  models = (
    record {
      same_name = refl;
      fields = (FieldAlike-refl _, (FieldAlike-refl _, tt));
      regular = (DirectiveAlike-refl _, tt);
      repeated = (DirectiveAlike-refl _, (DirectiveAlike-refl _, tt));
    },
    tt,
  );
}

infer_alike_example : infer moved schema ≡ []
infer_alike_example = infer_alike moved schema moved-Alike schema-WellNamed

schema-PrintsBack : EachArgument (PrintsBack parse_constant) schema
unfolding to_ast_expression from_ast_expression walk_type_aliases walk_enums walk_sources
    walk_models filter_map as_model as_enum as_source as_type_alias regular_directives
    repeated_directives directive_is_regular directive_is_repeated filter any render_value_to_string
    render_value StringBuilder_new write join
schema-PrintsBack = ground arith

infer-apply-infer_example :
    (apply parse_constant empty (infer empty schema) >>= λ t. ok (infer t schema)) ≡ ok []
infer-apply-infer_example =
    infer-apply-infer parse_constant schema schema-WellNamed schema-SchemaReadable schema-PrintsBack

-- The enum with another value, which has a directive.
abbrev green : EnumValue
green = value "Green" (directive "map" (argument "" "vert" ∷ []) ∷ [])

abbrev bigger_color : Enum
bigger_color = record color { values = green ∷ color.values }

abbrev color_schema : SchemaAst
color_schema = record { tops = Top.enum color ∷ [] }

created_value_directive_fails_example :
    apply parse_constant color_schema
      (push_updated_enum (record { previous = color; next = bigger_color }))
    ≡ err (
        create_directive_absent (record {
          location = record { path = DirectivePath.enum_value "Color" "Green"; directive = "map" };
        }))
unfolding find_enum_mut find_map_mut Enums.created_values created Enums.values_match find filter
    as_enum
created_value_directive_fails_example =
    created_value_directive_fails parse_constant color_schema
      (record { previous = color; next = bigger_color })
      (record { value = color; put = λ e. record { tops = Top.enum e ∷ [] } }) green []
      (directive "map" (argument "" "vert" ∷ [])) [] refl refl refl refl

apply-infer-WellNamed_example : WellNamed (rebuilt parse_constant schema)
apply-infer-WellNamed_example =
    apply-infer-WellNamed parse_constant schema (rebuilt parse_constant schema) schema-WellNamed
      schema-SchemaReadable
      (apply-infer-empty parse_constant schema schema-WellNamed schema-SchemaReadable)
