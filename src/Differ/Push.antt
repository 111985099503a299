-- ===== src/Differ/Push.antt =====
-- The steps on directives and arguments: the second half of
-- migration-engine/core/src/migration/datamodel_differ.rs. A function that pushes steps returns the
-- steps that it pushes, in their order.
use mathlib.Core.List.{flat_map}
use prisma_engines.Prelude.{
  String, Bool, Option, none, some, List, [], ◌∷◌, ◌++◌, map, ◌==◌, if◌then◌else◌,
}
use prisma_engines.Ast.Node.{Argument, Directive}
use prisma_engines.Steps.{
  MigrationStep, create_directive, delete_directive, create_argument, update_argument,
  delete_argument,
}
use prisma_engines.Steps.Location.{
  ArgumentLocation, DirectivePath, DirectiveLocation, from_ast_argument, from_ast_expression,
  set_arguments,
}
use prisma_engines.Differ.Pairs.{Pair}
use prisma_engines.Differ.Directives.{created_arguments, deleted_arguments, argument_pairs}

-- `diff_value` at a type with the test `eq`.
unfoldable pub diff_value {ℓ} : {T : Type ℓ} → (T → T → Bool) → T → T → Option T
diff_value eq current updated = if eq current updated then none else some updated

unfoldable pub push_created_argument : ArgumentLocation → Argument → List MigrationStep
push_created_argument argument_location argument =
    create_argument (record {
      argument = argument.name.name;
      value = from_ast_expression argument.value;
      location = argument_location;
    })
    ∷ []

unfoldable pub push_updated_argument : ArgumentLocation → Pair Argument → List MigrationStep
push_updated_argument directive_location arguments =
    if (from_ast_expression arguments.previous.value).text
      == (from_ast_expression arguments.next.value).text
    then []
    else update_argument (record {
      argument = arguments.next.name.name;
      new_value = from_ast_expression arguments.next.value;
      location = directive_location;
    })
      ∷ []

unfoldable pub push_deleted_argument : ArgumentLocation → String → List MigrationStep
push_deleted_argument directive_location argument =
    delete_argument (record { argument = argument; location = directive_location }) ∷ []

unfoldable pub push_created_directive : DirectivePath → Directive → List MigrationStep
unfolding push_created_argument
push_created_directive directive_path directive =
    create_directive (record { location = directive_location })
    ∷ flat_map (push_created_argument argument_location) directive.arguments
  where
    directive_location : DirectiveLocation
    directive_location = record { path = directive_path; directive = directive.name.name }

    argument_location : ArgumentLocation
    argument_location = ArgumentLocation.directive directive_location

-- The location of a directive together with its arguments.
abbrev pub location_with_arguments : DirectivePath → Directive → DirectiveLocation
location_with_arguments directive_path directive = record {
  path = set_arguments directive_path (map from_ast_argument directive.arguments);
  directive = directive.name.name;
}

unfoldable pub push_created_directive_with_arguments :
    DirectivePath → Directive → List MigrationStep
push_created_directive_with_arguments directive_path directive =
    create_directive (record { location = location_with_arguments directive_path directive }) ∷ []

unfoldable pub push_created_directives : DirectivePath → List Directive → List MigrationStep
unfolding push_created_directive
push_created_directives directive_path = flat_map (push_created_directive directive_path)

unfoldable pub push_created_directives_with_arguments :
    DirectivePath → List Directive → List MigrationStep
unfolding push_created_directive_with_arguments
push_created_directives_with_arguments directive_path =
    flat_map (push_created_directive_with_arguments directive_path)

unfoldable pub push_deleted_directive : DirectivePath → Directive → List MigrationStep
push_deleted_directive directive_path directive =
    delete_directive
      (record { location = record { path = directive_path; directive = directive.name.name } })
    ∷ []

unfoldable pub push_deleted_directives : DirectivePath → List Directive → List MigrationStep
unfolding push_deleted_directive
push_deleted_directives directive_path = flat_map (push_deleted_directive directive_path)

unfoldable pub push_deleted_directive_with_arguments :
    DirectivePath → Directive → List MigrationStep
push_deleted_directive_with_arguments directive_path directive =
    delete_directive (record { location = location_with_arguments directive_path directive }) ∷ []

unfoldable pub push_updated_directive : DirectivePath → Pair Directive → List MigrationStep
unfolding push_created_argument push_updated_argument push_deleted_argument
push_updated_directive directive_path directive =
    flat_map (push_created_argument location) (created_arguments directive)
    ++ (flat_map (push_updated_argument location) (argument_pairs directive)
        ++ flat_map (λ (argument : Argument). push_deleted_argument location argument.name.name)
            (deleted_arguments directive))
  where
    location : ArgumentLocation
    location =
        ArgumentLocation.directive
          (record { path = directive_path; directive = directive.previous.name.name })

unfoldable pub push_updated_directives : DirectivePath → List (Pair Directive) → List MigrationStep
unfolding push_updated_directive
push_updated_directives directive_path = flat_map (push_updated_directive directive_path)
