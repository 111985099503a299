-- ===== src/Prelude/Places.antt =====
-- Two lists of the same length whose entries are related, place by place.
use mathlib.Core.Path.{◌≡◌, refl, ap}
use Prim.Native.Nat.{suc}
use mathlib.Core.Logic.{inl, inr}
use mathlib.Core.List.{List, [], ◌∷◌, map}
use prisma_engines.Prelude.Lists.{All, Has, length}
use prisma_engines.Prelude.Search.{All-map}

module _ {A B : Type 0} where
  abbrev pub Pairwise : (A → B → Type 0) → List A → List B → Type 0
  Pairwise R [] [] = Unit
  Pairwise R (x ∷ xs) (y ∷ ys) = R x y × Pairwise R xs ys
  Pairwise R _ _ = ⊥

  module _ (R : A → B → Type 0) where
    pub Pairwise-left :
        (xs : List A) (ys : List B) → Pairwise R xs ys → All (λ x. (y : B) × (Has y ys × R x y)) xs
    Pairwise-left [] ys h = tt
    Pairwise-left (x ∷ xs) [] h = elim h [ ]
    Pairwise-left (x ∷ xs) (y ∷ ys) h = (
      (y, (inl refl, h.0)),
      All-map xs (λ a found. (found.0, (inr found.1.0, found.1.1))) (Pairwise-left xs ys h.1),
    )

    pub Pairwise-right :
        (xs : List A) (ys : List B) → Pairwise R xs ys → All (λ y. (x : A) × (Has x xs × R x y)) ys
    Pairwise-right [] [] h = tt
    Pairwise-right [] (y ∷ ys) h = elim h [ ]
    Pairwise-right (x ∷ xs) [] h = elim h [ ]
    Pairwise-right (x ∷ xs) (y ∷ ys) h = (
      (x, (inl refl, h.0)),
      All-map ys (λ a found. (found.0, (inr found.1.0, found.1.1))) (Pairwise-right xs ys h.1),
    )

    pub Pairwise-length : (xs : List A) (ys : List B) → Pairwise R xs ys → length xs ≡ length ys
    Pairwise-length [] [] h = refl
    Pairwise-length [] (y ∷ ys) h = elim h [ ]
    Pairwise-length (x ∷ xs) [] h = elim h [ ]
    Pairwise-length (x ∷ xs) (y ∷ ys) h = ap suc (Pairwise-length xs ys h.1)

pub Pairwise-map :
    {A B : Type 0} (R : B → A → Type 0) (f : A → B) (xs : List A)
    → All (λ x. R (f x) x) xs
    → Pairwise R (map f xs) xs
Pairwise-map R f [] h = tt
Pairwise-map R f (x ∷ xs) h = (h.0, Pairwise-map R f xs h.1)

pub Pairwise-refl :
    {A : Type 0} (R : A → A → Type 0) (xs : List A) → ((a : A) → R a a) → Pairwise R xs xs
Pairwise-refl R [] r = tt
Pairwise-refl R (x ∷ xs) r = (r x, Pairwise-refl R xs r)
