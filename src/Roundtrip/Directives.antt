-- ===== src/Roundtrip/Directives.antt =====
-- The steps that create directives and arguments, applied where their target is found.
use mathlib.Core.List.{flat_map}
use prisma_engines.Prelude.{
  String, ◌≡◌, refl, Option, none, some, List, [], ◌∷◌, ◌++◌, map, ◌==◌, eq_refl, ok, All, Absent,
  Unique, Option-cases, inl, inr, find_mut-append,
}
use prisma_engines.Ast.Expression.{Expression}
use prisma_engines.Ast.Node.{Argument, Directive}
use prisma_engines.Ast.Schema.{SchemaAst}
use prisma_engines.Steps.Location.{
  ArgumentLocation, DirectivePath, arguments, from_ast_argument, into_ast_argument,
  to_ast_expression, from_ast_expression, set_arguments,
}
use prisma_engines.Calculator.Apply.{apply, apply_step}
use prisma_engines.Calculator.Directives.{
  find_directives_mut, find_directive_mut, find_argument_container, apply_create_directive,
  apply_create_directive_argument, into_ast_arguments,
}
use prisma_engines.Calculator.Tops.{new_ident, new_span}
use prisma_engines.Differ.Push.{
  push_created_argument, push_created_directive, push_created_directives,
  push_created_directive_with_arguments,
}
use prisma_engines.Roundtrip.Rebuilt.{IsReadable, AllReadable, rebuilt_argument, rebuilt_directive}
use prisma_engines.Roundtrip.Grow.{Focus, grow, grow_unique}
use prisma_engines.WellNamed.{directive_name}

module _ (parse : String → Option Expression) where
  module _ (location : ArgumentLocation) (put : List Argument → SchemaAst)
      (focus : Focus (λ s. find_argument_container s location) put) where
    create_argument :
        (args : List Argument) (a : Argument)
        → IsReadable parse a
        → apply parse (put args) (push_created_argument location a)
          ≡ ok (put (args ++ rebuilt_argument parse a ∷ []))
    unfolding apply apply_step apply_create_directive_argument push_created_argument
    create_argument args a h =
        elim (Option-cases (to_ast_expression parse (from_ast_expression a.value))) [
          | inl e ↦ cc (h, e)
          | inr (v, e) ↦ rw (focus.at args, e)
        ]

    pub create_arguments :
        (args new : List Argument)
        → All (IsReadable parse) new
        → apply parse (put args) (flat_map (push_created_argument location) new)
          ≡ ok (put (args ++ map (rebuilt_argument parse) new))
    create_arguments =
        grow parse (rebuilt_argument parse) put (push_created_argument location) (IsReadable parse)
          create_argument

  module _ (path : DirectivePath) (plain : arguments path ≡ none) (put : List Directive → SchemaAst)
      (focus : Focus (λ s. find_directives_mut s path) put) where
    abbrev with_last : List Directive → Directive → List Argument → SchemaAst
    with_last ds d args =
        put (ds ++ record { name = new_ident d.name.name; arguments = args; span = new_span } ∷ [])

    abbrev location_of : Directive → ArgumentLocation
    location_of d = ArgumentLocation.directive (record { path = path; directive = d.name.name })

    last-Focus :
        (ds : List Directive) (d : Directive)
        → Absent directive_name d.name.name ds
        → Focus (λ s. find_argument_container s (location_of d)) (with_last ds d)
    unfolding find_argument_container find_directive_mut
    last-Focus ds d absent = record {
      at = λ args. rw (focus.at _) (
          rw
            (find_mut-append (λ (e : Directive). e.name.name == d.name.name) ds
              (record { name = new_ident d.name.name; arguments = args; span = new_span }) [] absent
              (eq_refl d.name.name))
            refl);
    }

    created_empty :
        (ds : List Directive) (d : Directive)
        → apply_create_directive parse
            (put ds)
            (record { location = record { path = path; directive = d.name.name } })
          ≡ ok (with_last ds d [])
    unfolding apply_create_directive
    created_empty ds d = rw (focus.at ds, plain)

    create_directive_lem :
        (ds : List Directive) (d : Directive)
        → Absent directive_name d.name.name ds
        → All (IsReadable parse) d.arguments
        → apply parse (put ds) (push_created_directive path d)
          ≡ ok (put (ds ++ rebuilt_directive parse d ∷ []))
    unfolding apply apply_step push_created_directive
    create_directive_lem ds d absent readable = rw (created_empty ds d) (
        create_arguments (location_of d) (with_last ds d) (last-Focus ds d absent) [] d.arguments
          readable)

    pub create_directives :
        (ds new : List Directive)
        → All (λ (x : Directive). Absent directive_name x.name.name ds) new
        → Unique directive_name new
        → AllReadable parse new
        → apply parse (put ds) (push_created_directives path new)
          ≡ ok (put (ds ++ map (rebuilt_directive parse) new))
    unfolding push_created_directives
    create_directives =
        grow_unique parse (rebuilt_directive parse) put (push_created_directive path)
          (λ (d : Directive). All (IsReadable parse) d.arguments) directive_name directive_name
          (λ d. refl) create_directive_lem

  into_ast_arguments-readable :
      (new : List Argument)
      → All (IsReadable parse) new
      → into_ast_arguments parse (map from_ast_argument new)
        ≡ some (map (rebuilt_argument parse) new)
  unfolding into_ast_arguments from_ast_argument into_ast_argument
  into_ast_arguments-readable [] h = refl
  into_ast_arguments-readable (a ∷ new) h =
      elim (Option-cases (to_ast_expression parse (from_ast_expression a.value))) [
        | inl e ↦ cc (h.0, e)
        | inr (v, e) ↦ rw (e, into_ast_arguments-readable new h.1)
      ]

  -- Repeated directives of a model carry their arguments in the step, and need no name of their own.
  module _ (model : String) (put : List Directive → SchemaAst)
      (focus : Focus (λ s. find_directives_mut s (DirectivePath.model model none)) put) where
    create_repeated :
        (ds : List Directive) (d : Directive)
        → All (IsReadable parse) d.arguments
        → apply parse
            (put ds)
            (push_created_directive_with_arguments (DirectivePath.model model none) d)
          ≡ ok (put (ds ++ rebuilt_directive parse d ∷ []))
    unfolding apply apply_step apply_create_directive push_created_directive_with_arguments
        set_arguments arguments find_directives_mut
    create_repeated ds d h = rw (focus.at ds, into_ast_arguments-readable d.arguments h)

    pub create_repeated_directives :
        (ds new : List Directive)
        → AllReadable parse new
        → apply parse
            (put ds)
            (flat_map (push_created_directive_with_arguments (DirectivePath.model model none)) new)
          ≡ ok (put (ds ++ map (rebuilt_directive parse) new))
    create_repeated_directives =
        grow parse (rebuilt_directive parse) put
          (push_created_directive_with_arguments (DirectivePath.model model none))
          (λ (d : Directive). All (IsReadable parse) d.arguments) create_repeated
