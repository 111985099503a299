-- ===== src/Engine/InOrder.antt =====
-- A reference for the loops of the migration applier: the steps of a database migration run in their
-- order, with no index and no fuel.
use prisma_engines.Prelude.{
  ℕ, zero, suc, ◌+◌, ◌<◌, ◌≡◌, refl, ap, ◌∙◌, Bool, true, false, is_some, Option, some, List, [],
  ◌∷◌, length, Outcome, ok, err, panic, arith,
}
use prisma_engines.Engine.Effects.{Effect, after, pure}
use prisma_engines.Engine.Migration.{MigrationUpdateParams}
use prisma_engines.Engine.Steps.{get_elem?}
use prisma_engines.Engine.Applier.{Ran, updated, tested, run_steps}

unfoldable pub drop {ℓ} : {A : Type ℓ} → ℕ → List A → List A
drop zero xs = xs
drop (suc n) [] = []
drop (suc n) (x ∷ xs) = drop n xs

module _ {World Failure Step : Type 0} (execute : Step → Effect World Failure (Unit {0})) where
  -- What a loop's call answers for the steps that are left.
  abbrev pub head_run : List Step → Effect World Failure Bool
  head_run [] world = (ok false, world)
  head_run (step ∷ rest) world = after (λ _. pure (is_some (get_elem? rest 0))) (execute step world)

module _ {World Failure Time Step : Type 0}
    (update : MigrationUpdateParams Time → Effect World Failure (Unit {0}))
    (count : MigrationUpdateParams Time → MigrationUpdateParams Time)
    (execute : Step → Effect World Failure (Unit {0})) where
  -- The progress is stored after a step that has another one behind it.
  abbrev pub stored :
      (MigrationUpdateParams Time → World → Ran World Failure Time)
      → MigrationUpdateParams Time
      → Outcome Failure (Unit {0}) × World
      → Ran World Failure Time
  stored next params (ok _, world) = next params world
  stored next params (err error, world) = (err error, params, world)
  stored next params (panic, world) = (panic, params, world)

  abbrev pub executed :
      (MigrationUpdateParams Time → World → Ran World Failure Time)
      → MigrationUpdateParams Time
      → Outcome Failure (Unit {0}) × World
      → Ran World Failure Time
  executed next params (ok _, world) = stored next (count params) (update (count params) world)
  executed next params (err error, world) = (err error, params, world)
  executed next params (panic, world) = (panic, params, world)

  abbrev pub stopped :
      MigrationUpdateParams Time → Outcome Failure (Unit {0}) × World → Ran World Failure Time
  stopped params (result, world) = (result, params, world)

  unfoldable pub in_order : List Step → MigrationUpdateParams Time → World → Ran World Failure Time
  in_order [] params world = (ok tt, params, world)
  in_order (step ∷ []) params world = stopped params (execute step world)
  in_order (step ∷ another ∷ rest) params world =
      executed (in_order (another ∷ rest)) params (execute step world)

  stored-updated :
      (next : MigrationUpdateParams Time → World → Option (Ran World Failure Time))
      (next' : MigrationUpdateParams Time → World → Ran World Failure Time)
      (params : MigrationUpdateParams Time) (r : Outcome Failure (Unit {0}) × World)
      → ((p : MigrationUpdateParams Time) (w : World) → next p w ≡ some (next' p w))
      → updated update count next params r ≡ some (stored next' params r)
  stored-updated next next' params (ok _, w) h = h params w
  stored-updated next next' params (err e, w) h = refl
  stored-updated next next' params (panic, w) h = refl

  tested_more :
      (next : MigrationUpdateParams Time → World → Option (Ran World Failure Time))
      (next' : MigrationUpdateParams Time → World → Ran World Failure Time)
      (params : MigrationUpdateParams Time) (r : Outcome Failure (Unit {0}) × World)
      → ((p : MigrationUpdateParams Time) (w : World) → next p w ≡ some (next' p w))
      → tested update count next params (after (λ _. pure true) r) ≡ some (executed next' params r)
  tested_more next next' params (ok _, w) h =
      stored-updated next next' (count params) (update (count params) w) h
  tested_more next next' params (err e, w) h = refl
  tested_more next next' params (panic, w) h = refl

  tested_last :
      (next : MigrationUpdateParams Time → World → Option (Ran World Failure Time))
      (params : MigrationUpdateParams Time) (r : Outcome Failure (Unit {0}) × World)
      → tested update count next params (after (λ _. pure false) r) ≡ some (stopped params r)
  tested_last next params (ok _, w) = refl
  tested_last next params (err e, w) = refl
  tested_last next params (panic, w) = refl

  here :
      (run : ℕ → Effect World Failure Bool) (rest : List Step) (index : ℕ) (world : World)
      → ((i : ℕ) (w : World) → run (index + i) w ≡ head_run execute (drop i rest) w)
      → run index world ≡ head_run execute rest world
  unfolding drop
  here run rest index world calls = ap (λ k. run k world) (omega arith) ∙ calls 0 world

  -- A loop whose call number `i` runs the first step behind `i` ones ends, within one round more than
  -- there are steps, with what the steps give in order.
  pub run_steps-in_order :
      (run : ℕ → Effect World Failure Bool) (rest : List Step) (fuel index : ℕ)
      (params : MigrationUpdateParams Time) (world : World)
      → ((i : ℕ) (w : World) → run (index + i) w ≡ head_run execute (drop i rest) w)
      → length rest < fuel
      → run_steps update count run fuel index params world ≡ some (in_order rest params world)
  unfolding run_steps in_order drop get_elem?
  run_steps-in_order run rest zero index params world calls enough = absurd (omega arith)
  run_steps-in_order run [] (suc fuel) index params world calls enough =
      rw (here run [] index world calls) refl
  run_steps-in_order run (s ∷ []) (suc fuel) index params world calls enough =
      rw (here run (s ∷ []) index world calls)
        (tested_last (run_steps update count run fuel (index + 1)) params (execute s world))
  run_steps-in_order run (s ∷ t ∷ rest) (suc fuel) index params world calls enough =
      rw (here run (s ∷ t ∷ rest) index world calls) (
        tested_more (run_steps update count run fuel (index + 1)) (in_order (t ∷ rest)) params
          (execute s world)
          λ p w.
            run_steps-in_order run (t ∷ rest) fuel (index + 1) p w
              (λ i v. ap (λ k. run k v) (omega arith) ∙ calls (suc i) v) (omega arith))

pub get_elem?-drop {ℓ} :
    {A : Type ℓ} (i j : ℕ) (xs : List A) → get_elem? (drop i xs) j ≡ get_elem? xs (i + j)
unfolding get_elem? drop
get_elem?-drop zero j xs = ap (get_elem? xs) {x = j} (omega arith)
get_elem?-drop (suc i) j [] = refl
get_elem?-drop (suc i) j (x ∷ xs) =
    get_elem?-drop i j xs ∙ ap (get_elem? (x ∷ xs)) {x = suc (i + j)} (omega arith)
