-- ===== src/Engine/Commands/Suffix.antt =====
-- The steps that the calculation of database steps takes to be applied:
-- migration-engine/core/src/commands/calculate_database_steps.rs.
use Prim.Native.Nat.{◌-◌}
use prisma_engines.Prelude.{
  ℕ, zero, suc, ◌+◌, ◌<◌, Bool, true, false, ◌≡◌, refl, ap, some, List, [], ◌∷◌, ◌++◌, length,
  arith,
}
use prisma_engines.Steps.{MigrationStep}
use prisma_engines.Engine.Commands.Calculate.{
  applicable_steps, without_suffix, leb, take, drop, slices_eq,
}

leb_refl : (n : ℕ) → leb n n ≡ true
unfolding leb
leb_refl zero = refl
leb_refl (suc n) = leb_refl n

leb-false : (a b : ℕ) → b < a → leb a b ≡ false
unfolding leb
leb-false zero b h = ground arith
leb-false (suc a) zero h = refl
leb-false (suc a) (suc b) h = leb-false a b (omega arith)

module _ {A : Type 0} where
  length-append : (xs ys : List A) → length (xs ++ ys) ≡ length xs + length ys
  length-append [] ys = omega arith
  length-append (x ∷ xs) ys = let rest = length-append xs ys in omega arith

  take-append : (xs ys : List A) → take (length xs) (xs ++ ys) ≡ xs
  unfolding take
  take-append [] ys = refl
  take-append (x ∷ xs) ys = ap (λ l. x ∷ l) (take-append xs ys)

  drop-append : (xs ys : List A) → drop (length xs) (xs ++ ys) ≡ ys
  unfolding drop
  drop-append [] ys = refl
  drop-append (x ∷ xs) ys = drop-append xs ys

  abbrev pub unless_empty : List A → List A → List A
  unless_empty [] steps = steps
  unless_empty (x ∷ xs) steps = x ∷ xs

  module _ (eq : A → A → Bool) (reflexive : (a : A) → eq a a ≡ true) where
    slices_eq_refl : (xs : List A) → slices_eq eq xs xs ≡ true
    unfolding slices_eq
    slices_eq_refl [] = refl
    slices_eq_refl (x ∷ xs) = rw (reflexive x) (slices_eq_refl xs)

    without_suffix-append :
        (before steps : List A)
        → without_suffix eq steps (before ++ steps) ≡ unless_empty before steps
    unfolding without_suffix
    without_suffix-append [] steps = rw (leb_refl (length steps)) refl
    without_suffix-append (x ∷ xs) steps =
        let total = length-append (x ∷ xs) steps in
        let longer : length steps < length ((x ∷ xs) ++ steps) = omega arith in
        let start : length ((x ∷ xs) ++ steps) - length steps ≡ length (x ∷ xs) = omega arith in
        rw (leb-false _ _ longer) (
          rw start (
            rw (drop-append (x ∷ xs) steps)
              (rw (slices_eq_refl steps) (take-append (x ∷ xs) steps))))

-- For an equality of steps that each step has with itself: where the steps to apply end those that
-- are assumed to be applied, `applicable_steps` is what stands before them; but where nothing
-- stands before them, it is the steps to apply.
pub applicable_steps-append :
    (step_eq : MigrationStep → MigrationStep → Bool)
    → ((step : MigrationStep) → step_eq step step ≡ true)
    → (before steps : List MigrationStep)
    → applicable_steps step_eq
        (record { steps_to_apply = steps; assume_to_be_applied = some (before ++ steps) })
      ≡ unless_empty before steps
unfolding applicable_steps
applicable_steps-append step_eq reflexive before steps =
    without_suffix-append step_eq reflexive before steps
