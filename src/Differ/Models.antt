-- ===== src/Differ/Models.antt =====
-- migration-engine/core/src/migration/datamodel_differ/models.rs
use prisma_engines.Prelude.{String, Bool, not, List, [], ◌∷◌, ◌==◌, any, filter}
use prisma_engines.Ast.Node.{Directive, Field, Model}
use prisma_engines.Differ.Pairs.{Pair, created, deleted, pairs}
use prisma_engines.Differ.Directives.{directives_match, directives_are_identical}

abbrev pub ModelDiffer : Type 0
ModelDiffer = Pair Model

unfoldable pub fields_match : Field → Field → Bool
fields_match previous next = previous.name.name == next.name.name

abbrev pub repeated_model_directives : List String
repeated_model_directives = "unique" ∷ "index" ∷ []

unfoldable pub directive_is_repeated : Directive → Bool
directive_is_repeated directive =
    any (λ name. name == directive.name.name) repeated_model_directives

unfoldable pub directive_is_regular : Directive → Bool
directive_is_regular directive = not (directive_is_repeated directive)

unfoldable pub regular_directives : Model → List Directive
regular_directives m = filter directive_is_regular m.directives

unfoldable pub repeated_directives : Model → List Directive
repeated_directives m = filter directive_is_repeated m.directives

unfoldable pub created_fields : ModelDiffer → List Field
created_fields d = created fields_match d.previous.fields d.next.fields

unfoldable pub deleted_fields : ModelDiffer → List Field
deleted_fields d = deleted fields_match d.previous.fields d.next.fields

unfoldable pub field_pairs : ModelDiffer → List (Pair Field)
field_pairs d = pairs fields_match d.previous.fields d.next.fields

unfoldable pub created_regular_directives : ModelDiffer → List Directive
created_regular_directives d =
    created directives_match (regular_directives d.previous) (regular_directives d.next)

unfoldable pub deleted_regular_directives : ModelDiffer → List Directive
deleted_regular_directives d =
    deleted directives_match (regular_directives d.previous) (regular_directives d.next)

unfoldable pub regular_directive_pairs : ModelDiffer → List (Pair Directive)
regular_directive_pairs d =
    pairs directives_match (regular_directives d.previous) (regular_directives d.next)

unfoldable pub created_repeated_directives : ModelDiffer → List Directive
created_repeated_directives d =
    created directives_are_identical (repeated_directives d.previous) (repeated_directives d.next)

unfoldable pub deleted_repeated_directives : ModelDiffer → List Directive
deleted_repeated_directives d =
    deleted directives_are_identical (repeated_directives d.previous) (repeated_directives d.next)
