-- ===== src/Roundtrip/Models.antt =====
-- Models and their fields, rebuilt from their steps.
use prisma_engines.Prelude.{
  String, ◌≡◌, refl, false, Option, none, List, [], ◌∷◌, ◌++◌, map, ◌==◌, eq_refl, ok, All, All_of,
  All-zip, Absent, Unique, find-none, find_mut-append,
}
use prisma_engines.Ast.Span.{Span_empty, Identifier_new}
use prisma_engines.Ast.Expression.{Expression}
use prisma_engines.Ast.Node.{Top, Model, Field, Directive}
use prisma_engines.Ast.Kind.{model_kind}
use prisma_engines.Ast.Schema.{SchemaAst, find_model, find_model_mut, find_field, find_field_mut}
use prisma_engines.Steps.Location.{DirectivePath, arguments}
use prisma_engines.Calculator.Apply.{apply, apply_step}
use prisma_engines.Calculator.Tops.{apply_create_model}
use prisma_engines.Calculator.Fields.{apply_create_field}
use prisma_engines.Calculator.Directives.{find_directives_mut}
use prisma_engines.Differ.Models.{regular_directives, repeated_directives}
use prisma_engines.Differ.Push.{push_created_directives, push_created_directives_with_arguments}
use prisma_engines.Differ.PushModels.{
  push_created_field, push_created_fields, push_created_model, push_created_models,
}
use prisma_engines.WellNamed.{DirectivesWellNamed, ModelWellNamed, field_name, model_name}
use prisma_engines.Roundtrip.Rebuilt.{AllReadable, rebuilt_field, rebuilt_directive, rebuilt_model}
use prisma_engines.Roundtrip.Grow.{Focus, apply_both, grow_unique}
use prisma_engines.Roundtrip.Directives.{create_directives, create_repeated_directives}
use prisma_engines.Roundtrip.Types.{field_with, into_from_arity}
use prisma_engines.Roundtrip.Tops.{NoTop, create_all, find-NoTop, find-last, find_top_mut-last}

module _ (parse : String → Option Expression) where
  abbrev FieldFits : Field → Type 0
  FieldFits f = DirectivesWellNamed f.directives × AllReadable parse f.directives

  module _ (ts : List Top) (m : Model) (absent : NoTop model_kind m.name.name ts) where
    abbrev model_with : List Field → List Directive → Model
    model_with fs ds = record {
      name = Identifier_new m.name.name;
      fields = fs;
      directives = ds;
      documentation = none;
      span = Span_empty;
      commented_out = false;
    }

    abbrev state : List Field → List Directive → SchemaAst
    state fs ds = record { tops = ts ++ Top.model (model_with fs ds) ∷ [] }

    model-Focus :
        (fs : List Field)
        → Focus (λ s. find_directives_mut s (DirectivePath.model m.name.name none)) (state fs)
    unfolding find_directives_mut find_model_mut
    model-Focus fs = record {
      at = λ ds. rw (
          find_top_mut-last model_kind m.name.name ts absent (model_with fs ds)
            (eq_refl m.name.name));
    }

    module _ (fs : List Field) (f : Field) (fresh : Absent field_name f.name.name fs) where
      abbrev field_state : List Directive → SchemaAst
      field_state ds = state (fs ++ field_with f ds ∷ []) []

      field-Focus :
          Focus
            (λ s. find_directives_mut s (DirectivePath.field m.name.name f.name.name))
            field_state
      unfolding find_directives_mut find_field_mut find_model_mut
      field-Focus = record {
        at = λ ds.
            rw
              (find_top_mut-last model_kind m.name.name ts absent
                (model_with (fs ++ field_with f ds ∷ []) []) (eq_refl m.name.name))
              (rw
                (find_mut-append (λ (g : Field). g.name.name == f.name.name) fs (field_with f ds) []
                  fresh (eq_refl f.name.name))
                refl);
      }

      create_field_lem :
          FieldFits f
          → apply parse (state fs []) (push_created_field m.name.name f)
            ≡ ok (state (fs ++ rebuilt_field parse f ∷ []) [])
      unfolding apply apply_step apply_create_field push_created_field find_field find_model
          find_model_mut arguments
      create_field_lem h =
          rw (find-last model_kind m.name.name ts absent (model_with fs []) (eq_refl m.name.name)) (
            rw (find-none (λ (g : Field). g.name.name == f.name.name) fs fresh) (
              rw
                (
                  find_top_mut-last model_kind m.name.name ts absent (model_with fs [])
                      (eq_refl m.name.name),
                  into_from_arity f.arity,
                )
                (create_directives parse (DirectivePath.field m.name.name f.name.name) refl
                  field_state field-Focus [] f.directives (All_of f.directives (λ d. tt)) h.0.0
                  h.1)))

    create_fields :
        (new : List Field)
        → Unique field_name new
        → All FieldFits new
        → apply parse (state [] []) (push_created_fields m.name.name new)
          ≡ ok (state (map (rebuilt_field parse) new) [])
    unfolding push_created_fields
    create_fields new u h =
        grow_unique parse (rebuilt_field parse) (λ fs. state fs []) (push_created_field m.name.name)
          FieldFits field_name field_name (λ f. refl) create_field_lem [] new (All_of new (λ f. tt))
          u h

    create_model_lem :
        ModelWellNamed m
        → All (λ (f : Field). AllReadable parse f.directives) m.fields
        → AllReadable parse (regular_directives m)
        → AllReadable parse (repeated_directives m)
        → apply parse (record { tops = ts }) (push_created_model m)
          ≡ ok (record { tops = ts ++ Top.model (rebuilt_model parse m) ∷ [] })
    unfolding apply apply_step apply_create_model push_created_model
        push_created_directives_with_arguments find_model arguments regular_directives
        repeated_directives
    create_model_lem w fields regular repeated = rw (find-NoTop model_kind m.name.name ts absent) (
        apply_both parse (state [] []) (state new_fields []) _
          (push_created_fields m.name.name m.fields) _
          (create_fields m.fields w.fields.0 (
            All-zip (λ f. DirectivesWellNamed f.directives) (λ f. AllReadable parse f.directives)
              m.fields w.fields.1 fields))
          (apply_both parse (state new_fields []) (state new_fields regular_built) _
            (push_created_directives path (regular_directives m)) _
            (create_directives parse path refl (state new_fields) (model-Focus new_fields) []
              (regular_directives m) (All_of (regular_directives m) (λ d. tt)) w.directives.0
              regular)
            (create_repeated_directives parse m.name.name (state new_fields)
              (model-Focus new_fields) regular_built (repeated_directives m) repeated)))
      where
        path : DirectivePath
        path = DirectivePath.model m.name.name none

        new_fields : List Field
        new_fields = map (rebuilt_field parse) m.fields

        regular_built : List Directive
        regular_built = map (rebuilt_directive parse) (regular_directives m)

  abbrev pub ModelFits : Model → Type 0
  ModelFits m =
      ModelWellNamed m
      × All (λ (f : Field). AllReadable parse f.directives) m.fields
      × AllReadable parse (regular_directives m)
      × AllReadable parse (repeated_directives m)

  -- All models, behind entries of other kinds.
  pub create_models :
      (before : List Top) (new : List Model)
      → All (λ t. model_kind.view t ≡ none) before
      → Unique model_name new
      → All ModelFits new
      → apply parse (record { tops = before }) (push_created_models new)
        ≡ ok (record { tops = before ++ map (λ m. Top.model (rebuilt_model parse m)) new })
  unfolding push_created_models
  create_models =
      create_all parse model_kind (rebuilt_model parse) push_created_model ModelFits (λ m. refl)
        (λ ts m absent h. create_model_lem ts m absent h.0 h.1 h.2 h.3)
