-- ===== src/Prelude/Refs.antt =====
-- Mutable references, `&mut A` into an `S`: the value referred to, and the write back.
use mathlib.Core.Bool.{Bool}
use mathlib.Core.Option
use mathlib.Core.Option.{Option, none, some}
use mathlib.Core.List.{List, [], ◌∷◌}
use prisma_engines.Prelude.Tests.{if◌then◌else◌}

pub record Ref {ℓ κ} (S : Type ℓ) (A : Type κ) : Type (ℓ ⊔ κ) where
  pub value : A
  pub put : A → S

-- A reference to a value that is held by value.
abbrev pub whole {ℓ} : {A : Type ℓ} → A → Ref A A
whole a = record { value = a; put = λ b. b }

-- A reference into what another reference refers to.
abbrev pub via {ℓ κ μ} : {S : Type ℓ} {A : Type κ} {B : Type μ} → Ref S A → Ref A B → Ref S B
via outer inner = record { value = inner.value; put = λ b. outer.put (inner.put b) }

abbrev pub at_head {ℓ κ} : {A : Type ℓ} {B : Type κ} → List A → Ref A B → Ref (List A) B
at_head xs r = record { value = r.value; put = λ b. r.put b ∷ xs }

abbrev pub at_tail {ℓ κ} : {A : Type ℓ} {B : Type κ} → A → Ref (List A) B → Ref (List A) B
at_tail x r = record { value = r.value; put = λ b. x ∷ r.put b }

module _ {ℓ κ} {A : Type ℓ} {B : Type κ} where
  abbrev pub first_of_two :
      Option (Ref (List A) B) → Option (Ref (List A) B) → Option (Ref (List A) B)
  first_of_two none other = other
  first_of_two (some r) other = some r

  -- `iter_mut().find_map(f)`
  unfoldable pub find_map_mut : (A → Option (Ref A B)) → List A → Option (Ref (List A) B)
  find_map_mut f [] = none
  find_map_mut f (x ∷ xs) =
      first_of_two (Option.map (at_head xs) (f x)) (Option.map (at_tail x) (find_map_mut f xs))

-- `iter_mut().find(p)`
unfoldable pub find_mut {ℓ} : {A : Type ℓ} → (A → Bool) → List A → Option (Ref (List A) A)
find_mut p = find_map_mut (λ x. if p x then some (whole x) else none)
