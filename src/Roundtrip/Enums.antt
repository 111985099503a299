-- ===== src/Roundtrip/Enums.antt =====
-- Enums, rebuilt from their steps.
use mathlib.Core.List.{flat_map, map-map}
use prisma_engines.Prelude.{
  String, ◌≡◌, refl, sym, ap, ◌∙◌, false, Option, none, List, [], ◌∷◌, ◌++◌, map, append_assoc,
  ◌==◌, eq_refl, ok, All, All_of, Absent, Unique, All-zip, find_mut-append,
}
use prisma_engines.Ast.Span.{Span_empty, Identifier_new}
use prisma_engines.Ast.Expression.{Expression}
use prisma_engines.Ast.Node.{Top, Enum, EnumValue, Directive}
use prisma_engines.Ast.Kind.{enum_kind}
use prisma_engines.Ast.Schema.{SchemaAst, find_enum, find_enum_mut}
use prisma_engines.Steps.{MigrationStep}
use prisma_engines.Steps.Location.{DirectivePath, arguments}
use prisma_engines.Calculator.Apply.{apply, apply_step}
use prisma_engines.Calculator.Tops.{apply_create_enum, new_enum_value}
use prisma_engines.Calculator.Directives.{find_directives_mut}
use prisma_engines.Differ.PushTypes.{push_created_enum, push_created_enums}
use prisma_engines.Differ.Push.{push_created_directives}
use prisma_engines.WellNamed.{DirectivesWellNamed, EnumWellNamed, enum_name, value_name}
use prisma_engines.Roundtrip.Rebuilt.{AllReadable, rebuilt_enum, rebuilt_value}
use prisma_engines.Roundtrip.Grow.{Focus, apply_both, Absent-later}
use prisma_engines.Roundtrip.Directives.{create_directives}
use prisma_engines.Roundtrip.Tops.{NoTop, create_all, find-NoTop, find_top_mut-last}

-- A value as the step of its enum creates it.
abbrev bare_value : EnumValue → EnumValue
bare_value v = new_enum_value v.name.name

abbrev value_with : EnumValue → List Directive → EnumValue
value_with v ds = record {
  name = Identifier_new v.name.name;
  directives = ds;
  documentation = none;
  span = Span_empty;
  commented_out = false;
}

module _ (parse : String → Option Expression) where
  abbrev ValueFits : EnumValue → Type 0
  ValueFits v = DirectivesWellNamed v.directives × AllReadable parse v.directives

  module _ (ts : List Top) (e : Enum) (absent : NoTop enum_kind e.name.name ts) where
    abbrev enum_with : List EnumValue → List Directive → Enum
    enum_with vs ds = record {
      name = Identifier_new e.name.name;
      values = vs;
      directives = ds;
      documentation = none;
      span = Span_empty;
    }

    abbrev state : List EnumValue → List Directive → SchemaAst
    state vs ds = record { tops = ts ++ Top.enum (enum_with vs ds) ∷ [] }

    enum-Focus :
        (vs : List EnumValue)
        → Focus (λ s. find_directives_mut s (DirectivePath.enum e.name.name)) (state vs)
    unfolding find_directives_mut find_enum_mut
    enum-Focus vs = record {
      at = λ ds. rw (
          find_top_mut-last enum_kind e.name.name ts absent (enum_with vs ds)
            (eq_refl e.name.name));
    }

    abbrev value_state :
        List EnumValue → EnumValue → List EnumValue → List Directive → List Directive → SchemaAst
    value_state done v todo ds vds = state (done ++ value_with v vds ∷ todo) ds

    value-Focus :
        (done : List EnumValue) (v : EnumValue) (todo : List EnumValue) (ds : List Directive)
        → Absent value_name v.name.name done
        → Focus
            (λ s. find_directives_mut s (DirectivePath.enum_value e.name.name v.name.name))
            (value_state done v todo ds)
    unfolding find_directives_mut find_enum_mut
    value-Focus done v todo ds fresh = record {
      at = λ vds.
          rw
            (find_top_mut-last enum_kind e.name.name ts absent
              (enum_with (done ++ value_with v vds ∷ todo) ds) (eq_refl e.name.name))
            (rw
              (find_mut-append (λ (u : EnumValue). u.name.name == v.name.name) done
                (value_with v vds) todo fresh (eq_refl v.name.name))
              refl);
    }

    abbrev value_steps : EnumValue → List MigrationStep
    value_steps v =
        push_created_directives (DirectivePath.enum_value e.name.name v.name.name) v.directives

    -- The directives of the values, value by value.
    create_values :
        (ds : List Directive) (done todo : List EnumValue)
        → All (λ (v : EnumValue). Absent value_name v.name.name done) todo
        → Unique value_name todo
        → All ValueFits todo
        → apply parse (state (done ++ map bare_value todo) ds) (flat_map value_steps todo)
          ≡ ok (state (done ++ map (rebuilt_value parse) todo) ds)
    unfolding flat_map apply arguments
    create_values ds done [] fresh u h = refl
    create_values ds done (v ∷ todo) fresh u h =
        apply_both parse (state (done ++ map bare_value (v ∷ todo)) ds)
          (state (done ++ rebuilt_value parse v ∷ map bare_value todo) ds) _ (value_steps v)
          (flat_map value_steps todo)
          (create_directives parse (DirectivePath.enum_value e.name.name v.name.name) refl
            (value_state done v (map bare_value todo) ds)
            (value-Focus done v (map bare_value todo) ds fresh.0) [] v.directives
            (All_of v.directives (λ d. tt)) h.0.0.0 h.0.1)
          (ap (λ vs. apply parse (state vs ds) (flat_map value_steps todo))
              (sym (append_assoc done (rebuilt_value parse v ∷ []) (map bare_value todo)))
            ∙ (create_values ds (done ++ rebuilt_value parse v ∷ []) todo
                  (Absent-later (rebuilt_value parse) value_name value_name (λ w. refl) done v todo
                    fresh.1 u.0)
                  u.1 h.1
                ∙ ap (λ vs. ok (state vs ds))
                    (append_assoc done (rebuilt_value parse v ∷ [])
                      (map (rebuilt_value parse) todo))))

    create_enum_lem :
        EnumWellNamed e
        → AllReadable parse e.directives
        → All (λ (v : EnumValue). AllReadable parse v.directives) e.values
        → apply parse (record { tops = ts }) (push_created_enum e)
          ≡ ok (record { tops = ts ++ Top.enum (rebuilt_enum parse e) ∷ [] })
    unfolding apply apply_step apply_create_enum push_created_enum find_enum arguments
    create_enum_lem w readable values =
        rw (find-NoTop enum_kind e.name.name ts absent, map-map new_enum_value value_name e.values)
          (apply_both parse (state (map bare_value e.values) [])
            (state (map bare_value e.values) (rebuilt_enum parse e).directives) _
            (push_created_directives (DirectivePath.enum e.name.name) e.directives)
            (flat_map value_steps e.values)
            (create_directives parse (DirectivePath.enum e.name.name) refl
              (state (map bare_value e.values)) (enum-Focus (map bare_value e.values)) []
              e.directives (All_of e.directives (λ d. tt)) w.directives.0 readable)
            (create_values (rebuilt_enum parse e).directives [] e.values (All_of e.values (λ v. tt))
              w.values
              (All-zip (λ v. DirectivesWellNamed v.directives) (λ v. AllReadable parse v.directives)
                e.values w.value_directives values)))

  abbrev pub EnumFits : Enum → Type 0
  EnumFits e =
      EnumWellNamed e
      × AllReadable parse e.directives
      × All (λ (v : EnumValue). AllReadable parse v.directives) e.values

  -- All enums, behind entries of other kinds.
  pub create_enums :
      (before : List Top) (new : List Enum)
      → All (λ t. enum_kind.view t ≡ none) before
      → Unique enum_name new
      → All EnumFits new
      → apply parse (record { tops = before }) (push_created_enums new)
        ≡ ok (record { tops = before ++ map (λ e. Top.enum (rebuilt_enum parse e)) new })
  unfolding push_created_enums
  create_enums =
      create_all parse enum_kind (rebuilt_enum parse) push_created_enum EnumFits (λ e. refl)
        (λ ts e absent h. create_enum_lem ts e absent h.0 h.1 h.2)
