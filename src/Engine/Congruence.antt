-- ===== src/Engine/Congruence.antt =====
-- Effects that go on alike: what follows a `?` matters only where it is reached.
use prisma_engines.Prelude.{◌≡◌, refl, Outcome, ok, err, panic}
use prisma_engines.Engine.Effects.{Effect, after}
use prisma_engines.Engine.Steps.{caught}

module _ {World Failure A B : Type 0} {next next' : A → Effect World Failure B} where
  pub after-cong :
      (result : Outcome Failure A × World)
      → ((a : A) → (world : World) → next a world ≡ next' a world)
      → after next result ≡ after next' result
  after-cong (ok a, world) same = same a world
  after-cong (err error, world) same = refl
  after-cong (panic, world) same = refl

  -- The same for what may use that the effect has had this result.
  pub after-caught :
      {SqlFailure : Type 0}
      → (into : SqlFailure → Failure) → (result : Outcome SqlFailure A × World)
      → ((a : A) → (world : World) → result ≡ (ok a, world) → next a world ≡ next' a world)
      → after next (caught into result) ≡ after next' (caught into result)
  after-caught into (ok a, world) same = same a world refl
  after-caught into (err error, world) same = refl
  after-caught into (panic, world) same = refl
