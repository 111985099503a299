-- ===== src/Calculator/Unchanged.antt =====
-- Rules for calculations that leave what a view of the entries shows as it was.
use mathlib.Core.Option
use mathlib.Core.List.{filter_map}
use prisma_engines.Prelude.{
  String, ◌≡◌, Bool, true, false, Option, none, some, List, if◌then◌else◌, Ref, via, ok, err, panic,
  ok_or, unwrap, ◌>>=◌,
}
use prisma_engines.Ast.Node.{Top, Enum, Model, SourceConfig, Field}
use prisma_engines.Ast.Kind.{Kind, find_top_mut}
use prisma_engines.Ast.Schema.{SchemaAst, in_schema, and_then}
use prisma_engines.Ast.Schema.Located.{put_frame}
use prisma_engines.Calculator.Errors.{Calculated, CalculatorError}
use prisma_engines.Calculator.Kinds.{EntryKind, enums, models, sources, types}

module _ {B : Type 0} (other : Top → Option B) where
  -- The view shows no entry of the kind.
  abbrev pub Hides : EntryKind → Type 0
  Hides enums = (a : Enum) → other (Top.enum a) ≡ none
  Hides models = (a : Model) → other (Top.model a) ≡ none
  Hides sources = (a : SourceConfig) → other (Top.source a) ≡ none
  Hides types = (a : Field) → other (Top.type a) ≡ none

  abbrev pub shown : SchemaAst → List B
  shown s = filter_map other s.tops

  module _ (s : SchemaAst) where
    abbrev pub Unchanged : Calculated SchemaAst → Type 0
    Unchanged (ok t) = shown t ≡ shown s
    Unchanged (err e) = Unit
    Unchanged panic = Unit

    -- A write through the reference, if there is one, is not shown.
    abbrev pub Framed : {A : Type 0} → Option (Ref SchemaAst A) → Type 0
    Framed none = Unit
    Framed {A} (some r) = (a : A) → shown (r.put a) ≡ shown s

    module _ {A : Type 0} where
      pub Framed-top :
          (kind : Kind A) (apart : (a : A) → other (kind.wrap a) ≡ none) (name : String)
          (o : Option (Ref (List Top) A))
          → find_top_mut kind name s.tops ≡ o
          → Framed (Option.map in_schema o)
      Framed-top kind apart name none e = tt
      Framed-top kind apart name (some r) e = λ a. put_frame other kind apart name s.tops r a e

    module _ {A C : Type 0} where
      pub Framed-via :
          (g : Ref SchemaAst A → Ref A C) (o : Option (Ref SchemaAst A))
          → Framed o
          → Framed (Option.map (λ r. via r (g r)) o)
      Framed-via g none h = tt
      Framed-via g (some r) h = λ c. h ((g r).put c)

      pub Framed-map :
          (g : A → Ref SchemaAst C) (o : Option A)
          → ((a : A) (c : C) → shown ((g a).put c) ≡ shown s)
          → Framed (Option.map g o)
      Framed-map g none h = tt
      Framed-map g (some a) h = h a

      pub Framed-then :
          (o : Option (Ref SchemaAst A)) (k : Ref SchemaAst A → Option (Ref SchemaAst C))
          → Framed o
          → ((r : Ref SchemaAst A) → ((a : A) → shown (r.put a) ≡ shown s) → Framed (k r))
          → Framed (and_then o k)
      Framed-then none k h f = tt
      Framed-then (some r) k h f = f r h

    module _ {A : Type 0} where
      pub Unchanged-ok_or :
          (o : Option (Ref SchemaAst A)) (e : CalculatorError)
          (k : Ref SchemaAst A → Calculated SchemaAst)
          → Framed o
          → ((r : Ref SchemaAst A) → ((a : A) → shown (r.put a) ≡ shown s) → Unchanged (k r))
          → Unchanged (ok_or o e >>= k)
      Unchanged-ok_or none e k h f = tt
      Unchanged-ok_or (some r) e k h f = f r h

      pub Unchanged-unwrap :
          (o : Option (Ref SchemaAst A)) (k : Ref SchemaAst A → Calculated SchemaAst)
          → Framed o
          → ((r : Ref SchemaAst A) → ((a : A) → shown (r.put a) ≡ shown s) → Unchanged (k r))
          → Unchanged (unwrap o >>= k)
      Unchanged-unwrap none k h f = tt
      Unchanged-unwrap (some r) k h f = f r h

      pub Unchanged-found :
          (o : Option A) (e : CalculatorError) (k : A → Calculated SchemaAst)
          → ((a : A) → Unchanged (k a))
          → Unchanged (ok_or o e >>= k)
      Unchanged-found none e k f = tt
      Unchanged-found (some a) e k f = f a

      pub Unchanged-parsed :
          (o : Option A) (k : A → Calculated SchemaAst)
          → ((a : A) → Unchanged (k a))
          → Unchanged (unwrap o >>= k)
      Unchanged-parsed none k f = tt
      Unchanged-parsed (some a) k f = f a

    pub Unchanged-if :
        (b : Bool) (x y : Calculated SchemaAst)
        → Unchanged x
        → Unchanged y
        → Unchanged (if b then x else y)
    Unchanged-if true x y h k = h
    Unchanged-if false x y h k = k
