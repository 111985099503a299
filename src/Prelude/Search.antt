-- ===== src/Prelude/Search.antt =====
-- Laws of the searches by Boolean tests.
use Prim.Native.String.{String}
use mathlib.Core.Path.{◌≡◌, refl, sym, ap, ◌∙◌, subst}
use mathlib.Core.Logic.{inl, inr}
use mathlib.Core.Bool.{Bool, true, false, not}
use mathlib.Core.Option.{Option, none, some}
use mathlib.Core.List.{List, [], ◌∷◌, ◌++◌, filter_map}
use native.Mathlib.Omega.{arith}
use text.Mathlib.Text.{◌==◌}
use text.Mathlib.TextPositions.{eq_refl}
use prisma_engines.Prelude.Tests.{if◌then◌else◌, is_some, is_none}
use prisma_engines.Prelude.Lists.{filter, find, any, all, All, Has, Unique}
use prisma_engines.Prelude.Refs.{Ref, find_map_mut, find_mut, whole}

module _ {A : Type 0} where
  pub All-map {ℓ κ} :
      {P : A → Type ℓ} {Q : A → Type κ} (xs : List A) → ((a : A) → P a → Q a) → All P xs → All Q xs
  All-map [] f h = tt
  All-map (x ∷ xs) f h = (f x h.0, All-map xs f h.1)

  pub All-zip {ℓ κ} :
      (P : A → Type ℓ) (Q : A → Type κ) (xs : List A)
      → All P xs
      → All Q xs
      → All (λ a. P a × Q a) xs
  All-zip P Q [] h k = tt
  All-zip P Q (x ∷ xs) h k = ((h.0, k.0), All-zip P Q xs h.1 k.1)

  pub All_of {ℓ} : {P : A → Type ℓ} (xs : List A) → ((a : A) → P a) → All P xs
  All_of [] f = tt
  All_of (x ∷ xs) f = (f x, All_of xs f)

  pub All-append {ℓ} : (P : A → Type ℓ) (xs ys : List A) → All P xs → All P ys → All P (xs ++ ys)
  All-append P [] ys h k = k
  All-append P (x ∷ xs) ys h k = (h.0, All-append P xs ys h.1 k)

  pub All-Has_within : (ys xs : List A) → ((a : A) → Has a ys → Has a xs) → All (λ a. Has a xs) ys
  All-Has_within [] xs f = tt
  All-Has_within (y ∷ ys) xs f = (f y (inl refl), All-Has_within ys xs (λ a h. f a (inr h)))

  pub All-Has : (xs : List A) → All (λ a. Has a xs) xs
  All-Has xs = All-Has_within xs xs (λ a h. h)

  pub All-at {ℓ} : (P : A → Type ℓ) (xs : List A) (a : A) → All P xs → Has a xs → P a
  All-at P [] a h m = elim m [ ]
  All-at P (x ∷ xs) a h (inl e) = subst P (sym e) h.0
  All-at P (x ∷ xs) a h (inr m) = All-at P xs a h.1 m

  pub filter-nil : (p : A → Bool) (xs : List A) → All (λ a. p a ≡ false) xs → filter p xs ≡ []
  unfolding filter
  filter-nil p [] h = refl
  filter-nil p (x ∷ xs) h = rw (h.0, filter-nil p xs h.1)

  pub filter_self : (p : A → Bool) (xs : List A) → All (λ a. p a ≡ true) xs → filter p xs ≡ xs
  unfolding filter
  filter_self p [] h = refl
  filter_self p (x ∷ xs) h = rw (h.0, filter_self p xs h.1)

  pub filter-append :
      (p : A → Bool) (xs ys : List A) → filter p (xs ++ ys) ≡ filter p xs ++ filter p ys
  unfolding filter
  filter-append p [] ys = refl
  filter-append p (x ∷ xs) ys = ground (arith, filter-append p xs ys)

  pub find-Has :
      (p : A → Bool) (xs : List A) (a : A) → p a ≡ true → Has a xs → is_none (find p xs) ≡ false
  unfolding find
  find-Has p [] a h m = elim m [ ]
  find-Has p (x ∷ xs) a h (inl e) = rw (ap p (sym e) ∙ h)
  find-Has p (x ∷ xs) a h (inr m) = ground (arith, find-Has p xs a h m)

  pub find-none : (p : A → Bool) (xs : List A) → All (λ a. p a ≡ false) xs → find p xs ≡ none
  unfolding find
  find-none p [] h = refl
  find-none p (x ∷ xs) h = rw h.0 (find-none p xs h.1)

  pub find-append :
      (p : A → Bool) (xs : List A) (y : A) (ys : List A)
      → All (λ a. p a ≡ false) xs
      → p y ≡ true
      → find p (xs ++ y ∷ ys) ≡ some y
  unfolding find
  find-append p [] y ys h k = rw k
  find-append p (x ∷ xs) y ys h k = rw h.0 (find-append p xs y ys h.1 k)

  pub is_none-any : (p : A → Bool) (xs : List A) → not (any p xs) ≡ is_none (find p xs)
  unfolding any find
  is_none-any p [] = refl
  is_none-any p (x ∷ xs) = ground (arith, is_none-any p xs)

  -- Among entries with different names, the first with the name of an entry is that entry.
  pub find_unique :
      (ident : A → String) (xs : List A) (a : A)
      → Unique ident xs
      → Has a xs
      → find (λ x. ident a == ident x) xs ≡ some a
  unfolding find
  find_unique ident [] a u m = elim m [ ]
  find_unique ident (x ∷ xs) a u (inl e) =
      rw (ap (λ t. ident a == ident t) (sym e) ∙ eq_refl (ident a)) (ap some (sym e))
  find_unique ident (x ∷ xs) a u (inr m) =
      rw (All-at (λ y. (ident y == ident x) ≡ false) xs a u.0 m) (find_unique ident xs a u.1 m)

  pub any_of_Has :
      (p : A → Bool) (xs : List A) (a : A) → p a ≡ true → Has a xs → is_some (find p xs) ≡ true
  unfolding find
  any_of_Has p [] a h m = elim m [ ]
  any_of_Has p (x ∷ xs) a h (inl e) = rw (ap p (sym e) ∙ h)
  any_of_Has p (x ∷ xs) a h (inr m) = ground (arith, any_of_Has p xs a h m)

  pub all_of : (p : A → Bool) (xs : List A) → All (λ a. p a ≡ true) xs → all p xs ≡ true
  unfolding all
  all_of p [] h = refl
  all_of p (x ∷ xs) h = rw h.0 (all_of p xs h.1)

module _ {A B : Type 0} where
  -- A mutable search that misses a prefix and hits the entry behind it.
  pub find_map_mut-append :
      (f : A → Option (Ref A B)) (xs : List A) (y : A) (ys : List A) (r : Ref A B)
      → All (λ x. f x ≡ none) xs
      → f y ≡ some r
      → find_map_mut f (xs ++ y ∷ ys)
        ≡ some (record { value = r.value; put = λ b. xs ++ r.put b ∷ ys })
  unfolding find_map_mut
  find_map_mut-append f [] y ys r h k = rw k
  find_map_mut-append f (x ∷ xs) y ys r h k = rw (h.0, find_map_mut-append f xs y ys r h.1 k)

  pub filter_map-nil :
      (f : A → Option B) (xs : List A) → All (λ a. f a ≡ none) xs → filter_map f xs ≡ []
  unfolding filter_map
  filter_map-nil f [] h = refl
  filter_map-nil f (x ∷ xs) h = rw h.0 (filter_map-nil f xs h.1)

module _ {A : Type 0} where
  pub find_mut-append :
      (p : A → Bool) (xs : List A) (y : A) (ys : List A)
      → All (λ x. p x ≡ false) xs
      → p y ≡ true
      → find_mut p (xs ++ y ∷ ys) ≡ some (record { value = y; put = λ b. xs ++ b ∷ ys })
  unfolding find_mut
  find_mut-append p xs y ys h k =
      find_map_mut-append _ xs y ys (whole y)
        (All-map xs (λ a e. ap (λ t. if t then some (whole a) else none) e) h)
        (ap (λ t. if t then some (whole y) else none) k)
