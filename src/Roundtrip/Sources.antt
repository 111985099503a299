-- ===== src/Roundtrip/Sources.antt =====
-- Sources, rebuilt from their steps.
use prisma_engines.Prelude.{
  String, ◌≡◌, refl, Option, none, List, [], ◌∷◌, ◌++◌, map, eq_refl, ok, All, Unique,
}
use prisma_engines.Ast.Span.{Span_empty, Identifier_new}
use prisma_engines.Ast.Expression.{Expression}
use prisma_engines.Ast.Node.{Top, SourceConfig, Argument}
use prisma_engines.Ast.Kind.{source_kind}
use prisma_engines.Ast.Schema.{SchemaAst, find_source, find_source_mut}
use prisma_engines.Steps.Location.{ArgumentLocation}
use prisma_engines.Calculator.Apply.{apply, apply_step}
use prisma_engines.Calculator.Tops.{apply_create_source}
use prisma_engines.Calculator.Directives.{find_argument_container}
use prisma_engines.Differ.PushModels.{push_created_source, push_created_sources}
use prisma_engines.WellNamed.{source_name}
use prisma_engines.Roundtrip.Rebuilt.{IsReadable, rebuilt_source}
use prisma_engines.Roundtrip.Grow.{Focus}
use prisma_engines.Roundtrip.Directives.{create_arguments}
use prisma_engines.Roundtrip.Tops.{NoTop, create_all, find-NoTop, find_top_mut-last}

module _ (parse : String → Option Expression) where
  module _ (ts : List Top) (c : SourceConfig) (absent : NoTop source_kind c.name.name ts) where
    source_with : List Argument → SchemaAst
    source_with args = record {
      tops =
          ts
          ++ Top.source (record {
            name = Identifier_new c.name.name;
            properties = args;
            documentation = none;
            span = Span_empty;
          })
            ∷ [];
    }

    source-Focus :
        Focus
          (λ s.
            find_argument_container s (ArgumentLocation.source (record { source = c.name.name })))
          source_with
    unfolding find_argument_container find_source_mut source_with
    source-Focus = record {
      at = λ args. rw (
          find_top_mut-last source_kind c.name.name ts absent
            (record {
              name = Identifier_new c.name.name;
              properties = args;
              documentation = none;
              span = Span_empty;
            })
            (eq_refl c.name.name));
    }

    create_source_lem :
        All (IsReadable parse) c.properties
        → apply parse (record { tops = ts }) (push_created_source c)
          ≡ ok (record { tops = ts ++ Top.source (rebuilt_source parse c) ∷ [] })
    unfolding apply apply_step apply_create_source push_created_source find_source source_with
    create_source_lem readable = rw (find-NoTop source_kind c.name.name ts absent) (
        create_arguments parse (ArgumentLocation.source (record { source = c.name.name }))
          source_with source-Focus [] c.properties readable)

  -- All sources, behind entries of other kinds.
  pub create_sources :
      (before : List Top) (new : List SourceConfig)
      → All (λ t. source_kind.view t ≡ none) before
      → Unique source_name new
      → All (λ (c : SourceConfig). All (IsReadable parse) c.properties) new
      → apply parse (record { tops = before }) (push_created_sources new)
        ≡ ok (record { tops = before ++ map (λ c. Top.source (rebuilt_source parse c)) new })
  unfolding push_created_sources
  create_sources =
      create_all parse source_kind (rebuilt_source parse) push_created_source
        (λ c. All (IsReadable parse) c.properties) (λ c. refl) create_source_lem
