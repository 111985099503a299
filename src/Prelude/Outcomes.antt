-- ===== src/Prelude/Outcomes.antt =====
-- `Result<A, E>` of a function that may also panic, as `unwrap` does on a missing value.
use mathlib.Core.Path.{◌≡◌, refl}
use mathlib.Core.Option.{Option, none, some}

pub data Outcome {ℓ κ} (E : Type ℓ) (A : Type κ) : Type (ℓ ⊔ κ) where
  panic : Outcome E A
  err : E → Outcome E A
  ok : A → Outcome E A

module _ {ℓ} {E : Type ℓ} where
  -- Rust's `unwrap` and `ok_or_else`.
  abbrev pub unwrap {κ} : {A : Type κ} → Option A → Outcome E A
  unwrap (some a) = ok a
  unwrap none = panic

  abbrev pub ok_or {κ} : {A : Type κ} → Option A → E → Outcome E A
  ok_or (some a) _ = ok a
  ok_or none error = err error

  module _ {κ μ} {A : Type κ} {B : Type μ} where
    infixl 5 ◌>>=◌
    abbrev pub ◌>>=◌ : Outcome E A → (A → Outcome E B) → Outcome E B
    panic >>= next = panic
    err error >>= next = err error
    ok a >>= next = next a

    -- Inversion of a bind that succeeds.
    pub >>=-eq-ok :
        (first : Outcome E A) (next : A → Outcome E B) {b : B}
        → (first >>= next) ≡ ok b
        → (a : A) × (first ≡ ok a) × (next a ≡ ok b)
    >>=-eq-ok panic next h = cc
    >>=-eq-ok (err error) next h = cc
    >>=-eq-ok (ok a) next h = (a, refl, h)

  pub >>=_assoc {κ μ ν} :
      {A : Type κ} {B : Type μ} {C : Type ν} (first : Outcome E A) (next : A → Outcome E B)
      (last : B → Outcome E C)
      → ((first >>= next) >>= last) ≡ (first >>= λ a. next a >>= last)
  >>=_assoc panic next last = refl
  >>=_assoc (err error) next last = refl
  >>=_assoc (ok a) next last = refl
