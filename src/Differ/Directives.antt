-- ===== src/Differ/Directives.antt =====
-- migration-engine/core/src/migration/datamodel_differ/directives.rs
use prisma_engines.Prelude.{
  Bool, false, not, ◌&&◌, List, ◌==◌, nat_eq, if◌then◌else◌, is_some, length, find, all,
}
use prisma_engines.Ast.Node.{Argument, Directive}
use prisma_engines.Steps.Location.{from_ast_expression}
use prisma_engines.Differ.Pairs.{Pair, created, deleted, pairs}

abbrev pub DirectiveDiffer : Type 0
DirectiveDiffer = Pair Directive

unfoldable pub arguments_match : Argument → Argument → Bool
arguments_match previous next = previous.name.name == next.name.name

unfoldable pub deleted_arguments : DirectiveDiffer → List Argument
deleted_arguments d = deleted arguments_match d.previous.arguments d.next.arguments

unfoldable pub created_arguments : DirectiveDiffer → List Argument
created_arguments d = created arguments_match d.previous.arguments d.next.arguments

unfoldable pub argument_pairs : DirectiveDiffer → List (Pair Argument)
argument_pairs d = pairs arguments_match d.previous.arguments d.next.arguments

unfoldable pub directives_match : Directive → Directive → Bool
directives_match previous next = previous.name.name == next.name.name

unfoldable pub arguments_are_identical : Argument → Argument → Bool
arguments_are_identical previous next =
    previous.name.name == next.name.name
    && (from_ast_expression previous.value).text == (from_ast_expression next.value).text

unfoldable pub directives_are_identical : Directive → Directive → Bool
unfolding arguments_are_identical
directives_are_identical previous next =
    if not (previous.name.name == next.name.name)
    then false
    else if not (nat_eq (length previous.arguments) (length next.arguments))
    then false
    else all
        (λ previous_argument. is_some (
          find (λ next_argument. arguments_are_identical previous_argument next_argument)
            next.arguments))
        previous.arguments
