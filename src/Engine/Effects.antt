-- ===== src/Engine/Effects.antt =====
-- Effectful Rust functions that return a `Result`: a function of the world outside (the database and
-- the clock), which answers with an outcome and the world that it leaves, also where it fails.
use prisma_engines.Prelude.{Outcome, panic, err, ok}

abbrev pub Effect : Type 0 → Type 0 → Type 0 → Type 0
Effect World Failure A = World → Outcome Failure A × World

module _ {World Failure : Type 0} {A B : Type 0} where
  -- What follows a `?`: an error or a panic ends the function.
  abbrev pub after :
      (A → Effect World Failure B) → Outcome Failure A × World → Outcome Failure B × World
  after next (ok a, world) = next a world
  after next (err error, world) = (err error, world)
  after next (panic, world) = (panic, world)

  infixl 5 ◌>>=◌
  abbrev pub ◌>>=◌ : Effect World Failure A → (A → Effect World Failure B) → Effect World Failure B
  (first >>= next) world = after next (first world)

module _ {World Failure : Type 0} {B : Type 0} where
  infixl 5 ◌>>◌
  abbrev pub ◌>>◌ :
      Effect World Failure (Unit {0}) → Effect World Failure B → Effect World Failure B
  first >> next = first >>= λ _. next

module _ {World Failure : Type 0} {A : Type 0} where
  abbrev pub pure : A → Effect World Failure A
  pure a world = (ok a, world)

  abbrev pub fail : Failure → Effect World Failure A
  fail error world = (err error, world)

  abbrev pub abort : Effect World Failure A
  abort world = (panic, world)

  -- `?` on a result that needs no world.
  abbrev pub lift : Outcome Failure A → Effect World Failure A
  lift result world = (result, world)
