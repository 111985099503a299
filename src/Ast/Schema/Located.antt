-- ===== src/Ast/Schema/Located.antt =====
-- Where a mutable search of libs/datamodel/core/src/ast/mod.rs finds its entry, and what a write
-- through it leaves alone.
use mathlib.Core.Option
use mathlib.Core.Option.{some-injective}
use mathlib.Core.List.{filter_map, filter_map-append, filter_map-cons-none}
use prisma_engines.Prelude.{
  String, ◌≡◌, refl, sym, ap, ◌∙◌, true, Option, none, some, List, [], ◌∷◌, ◌++◌, append-nil, ◌==◌,
  inl, inr, Bool-cases, Option-cases, All, Ref, find_map_mut, at_tail, filter,
}
use prisma_engines.Ast.Node.{Top}
use prisma_engines.Ast.Kind.{Kind, find_top_mut, top_ref, keeps}

module _ {A : Type 0} (kind : Kind A) (name : String) where
  -- The entry that the reference points to, between the entries before it and after it.
  pub record Located (tops : List Top) (r : Ref (List Top) A) : Type 0 where
    pub before : List Top
    pub entry : A
    pub after : List Top
    pub tops_are : tops ≡ before ++ kind.wrap entry ∷ after
    pub missed : All (λ t. top_ref kind name t ≡ none) before
    pub named : (kind.ident entry == name) ≡ true
    pub ref_is : r ≡ record { value = entry; put = λ a. before ++ kind.wrap a ∷ after }

  further :
      (t : Top) (ts : List Top) (o : Option (Ref (List Top) A))
      → top_ref kind name t ≡ none
      → ((r : Ref (List Top) A) → o ≡ some r → Located ts r)
      → (r : Ref (List Top) A) → Option.map (at_tail t) o ≡ some r
      → Located (t ∷ ts) r
  further t ts none miss ih r e = cc
  further t ts (some r') miss ih r e =
      let l = ih r' refl in
      record {
        before = t ∷ l.before;
        entry = l.entry;
        after = l.after;
        tops_are = ap (◌∷◌ t) l.tops_are;
        missed = (miss, l.missed);
        named = l.named;
        ref_is = sym (some-injective _ _ e) ∙ ap (at_tail t) l.ref_is;
      }

  pub located :
      (tops : List Top) (r : Ref (List Top) A)
      → find_top_mut kind name tops ≡ some r
      → Located tops r
  unfolding find_map_mut
  located [] r e = cc
  located (t ∷ ts) r e = elim (Option-cases (kind.view t)) [
    | inl v ↦ further t ts (find_top_mut kind name ts) (rw v) (located ts) r (rw v at e)
    | inr (a, v) ↦ elim (Bool-cases (kind.ident a == name)) [
      | inl yes_named ↦ record {
        before = [];
        entry = a;
        after = ts;
        tops_are = ap (λ u. u ∷ ts) (sym (kind.wrap-view t a v));
        missed = tt;
        named = yes_named;
        ref_is = sym (some-injective _ _ (rw (v, yes_named) at e));
      }
      | inr other ↦
          further t ts (find_top_mut kind name ts) (rw (v, other)) (located ts) r
            (rw (v, other) at e)
    ]
  ]

-- What a view of the entries that shows none of the kind sees of a change to that kind.
module _ {A B : Type 0} (other : Top → Option B) (kind : Kind A)
    (apart : (a : A) → other (kind.wrap a) ≡ none) where
  filter_map-wrap :
      (before after : List Top) (a : A)
      → filter_map other (before ++ kind.wrap a ∷ after)
        ≡ filter_map other before ++ filter_map other after
  filter_map-wrap before after a =
      filter_map-append other before (kind.wrap a ∷ after)
      ∙ ap (◌++◌ (filter_map other before))
          (filter_map-cons-none other (kind.wrap a) after (apart a))

  pub put_frame :
      (name : String) (tops : List Top) (r : Ref (List Top) A) (a : A)
      → find_top_mut kind name tops ≡ some r
      → filter_map other (r.put a) ≡ filter_map other tops
  put_frame name tops r a e =
      let l = located kind name tops r e in
      ap (λ (s : Ref (List Top) A). filter_map other (s.put a)) l.ref_is
      ∙ (filter_map-wrap l.before l.after a
          ∙ (sym (filter_map-wrap l.before l.after l.entry)
              ∙ ap (filter_map other) (sym l.tops_are)))

  pub push_frame :
      (tops : List Top) (a : A)
      → filter_map other (tops ++ kind.wrap a ∷ []) ≡ filter_map other tops
  unfolding filter_map
  push_frame tops a = filter_map-wrap tops [] a ∙ append-nil (filter_map other tops)

  hidden : (t : Top) (a : A) → kind.view t ≡ some a → other t ≡ none
  hidden t a v = ap other (sym (kind.wrap-view t a v)) ∙ apart a

  pub retain_frame :
      (name : String) (tops : List Top)
      → filter_map other (filter (keeps kind name) tops) ≡ filter_map other tops
  unfolding filter filter_map
  retain_frame name [] = refl
  retain_frame name (t ∷ ts) = elim (Option-cases (kind.view t)) [
    | inl v ↦ rw v (rw (retain_frame name ts))
    | inr (a, v) ↦ elim (Bool-cases (kind.ident a == name)) [
      | inl dropped ↦ rw (v, dropped) (rw (hidden t a v) (retain_frame name ts))
      | inr kept ↦ rw (v, kept) (rw (retain_frame name ts))
    ]
  ]
