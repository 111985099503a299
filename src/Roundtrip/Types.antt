-- ===== src/Roundtrip/Types.antt =====
-- Type aliases, rebuilt from their steps.
use prisma_engines.Prelude.{
  String, ◌≡◌, refl, false, Option, none, List, [], ◌∷◌, ◌++◌, map, eq_refl, ok, All, All_of,
  Unique,
}
use prisma_engines.Ast.Span.{Span_empty, Identifier_new}
use prisma_engines.Ast.Expression.{Expression}
use prisma_engines.Ast.Node
use prisma_engines.Ast.Node.{Top, Field, Directive}
use prisma_engines.Ast.Kind.{type_kind}
use prisma_engines.Ast.Schema.{SchemaAst, find_type_alias, find_type_alias_mut}
use prisma_engines.Steps.Location.{DirectivePath, arguments, from_ast_arity, into_ast_arity}
use prisma_engines.Calculator.Apply.{apply, apply_step}
use prisma_engines.Calculator.Tops.{apply_create_type_alias}
use prisma_engines.Calculator.Directives.{find_directives_mut}
use prisma_engines.Differ.PushTypes.{push_created_type_alias, push_created_type_aliases}
use prisma_engines.WellNamed.{DirectivesWellNamed, field_name}
use prisma_engines.Roundtrip.Rebuilt.{AllReadable, rebuilt_field}
use prisma_engines.Roundtrip.Grow.{Focus}
use prisma_engines.Roundtrip.Directives.{create_directives}
use prisma_engines.Roundtrip.Tops.{NoTop, create_all, find-NoTop, find_top_mut-last}

-- The arity of a field survives the way through a step.
pub into_from_arity : (a : Node.FieldArity) → into_ast_arity (from_ast_arity a) ≡ a
unfolding into_ast_arity from_ast_arity
into_from_arity Node.FieldArity.required = refl
into_from_arity Node.FieldArity.optional = refl
into_from_arity Node.FieldArity.list = refl

-- A field as its step creates it, with directives.
abbrev pub field_with : Field → List Directive → Field
field_with f ds = record {
  field_type = Identifier_new f.field_type.name;
  name = Identifier_new f.name.name;
  arity = f.arity;
  default_value = none;
  directives = ds;
  documentation = none;
  span = Span_empty;
  is_commented_out = false;
}

module _ (parse : String → Option Expression) where
  module _ (ts : List Top) (f : Field) (absent : NoTop type_kind f.name.name ts) where
    alias_with : List Directive → SchemaAst
    alias_with ds = record { tops = ts ++ Top.type (field_with f ds) ∷ [] }

    alias-Focus :
        Focus (λ s. find_directives_mut s (DirectivePath.type_alias f.name.name)) alias_with
    unfolding find_directives_mut find_type_alias_mut alias_with
    alias-Focus = record {
      at = λ ds. rw (
          find_top_mut-last type_kind f.name.name ts absent (field_with f ds)
            (eq_refl f.name.name));
    }

    create_alias :
        DirectivesWellNamed f.directives
        → AllReadable parse f.directives
        → apply parse (record { tops = ts }) (push_created_type_alias f)
          ≡ ok (record { tops = ts ++ Top.type (rebuilt_field parse f) ∷ [] })
    unfolding apply apply_step apply_create_type_alias push_created_type_alias find_type_alias
        alias_with arguments
    create_alias w readable =
        rw (find-NoTop type_kind f.name.name ts absent, into_from_arity f.arity)
          (create_directives parse (DirectivePath.type_alias f.name.name) refl alias_with
            alias-Focus [] f.directives (All_of f.directives (λ d. tt)) w.0 readable)

  -- All type aliases, behind entries of other kinds.
  pub create_aliases :
      (before : List Top) (new : List Field)
      → All (λ t. type_kind.view t ≡ none) before
      → Unique field_name new
      → All (λ (f : Field). DirectivesWellNamed f.directives × AllReadable parse f.directives) new
      → apply parse (record { tops = before }) (push_created_type_aliases new)
        ≡ ok (record { tops = before ++ map (λ f. Top.type (rebuilt_field parse f)) new })
  unfolding push_created_type_aliases
  create_aliases =
      create_all parse type_kind (rebuilt_field parse) push_created_type_alias
        (λ f. DirectivesWellNamed f.directives × AllReadable parse f.directives) (λ f. refl)
        (λ ts f absent h. create_alias ts f absent h.0 h.1)
