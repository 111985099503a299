-- ===== src/Engine/Statuses.antt =====
-- The updates that the applier's loops try, and their statuses:
-- migration-engine/connectors/migration-connector/src/migration_applier.rs.
use prisma_engines.Prelude.{◌≡◌, sym, ◌∙◌, subst, List, [], ◌∷◌, Outcome, ok, err, panic}
use prisma_engines.Engine.Effects.{Effect}
use prisma_engines.Engine.MigrationStatus.{MigrationStatus}
use prisma_engines.Engine.Migration.{Migration, MigrationUpdateParams}
use prisma_engines.Engine.Applier.{Ran}
use prisma_engines.Engine.InOrder.{in_order, stored, executed}
use prisma_engines.Engine.Diagram.{Change, Concerns, Reached, Holds}
use prisma_engines.Engine.Logged.{Logged, logged}

-- `Holds` of what a loop returns.
abbrev pub RanHolds :
    {World Failure Time Json : Type 0}
    → Migration Time Json
    → MigrationStatus
    → Ran (Logged Time World) Failure Time
    → Type 0
RanHolds migration status (result, params, (log, world)) = Holds migration status params log

module _ {World Failure Time Json Step : Type 0} (migration : Migration Time Json)
    (status : MigrationStatus) (stay : Change status status) where
  module _ (update : MigrationUpdateParams Time → Effect World Failure (Unit {0}))
      (count : MigrationUpdateParams Time → MigrationUpdateParams Time)
      (carries : (p : MigrationUpdateParams Time)
        → ((count p).status ≡ p.status) × (Concerns migration p → Concerns migration (count p)))
      (execute : Step → Effect (Logged Time World) Failure (Unit {0}))
      (silent : (step : Step) (state : Logged Time World)
        → (execute step state).1.0 ≡ state.0) where
    counted :
        (p : MigrationUpdateParams Time) (log : List (MigrationUpdateParams Time))
        → Holds migration status p log
        → Holds migration status (count p) (count p ∷ log)
    counted p log (reached, at, about) =
        let at' : (count p).status ≡ status = (carries p).0 ∙ at in
        let about' : Concerns migration (count p) = (carries p).1 about in
        (Reached.stored (count p) reached stay at' about', at', about')

    stored-Holds :
        (next : MigrationUpdateParams Time
          → Logged Time World
          → Ran (Logged Time World) Failure Time)
        → ((p : MigrationUpdateParams Time) (state : Logged Time World)
            → Holds migration status p state.0
            → RanHolds migration status (next p state))
        → (p : MigrationUpdateParams Time) (r : Outcome Failure (Unit {0}) × Logged Time World)
        → Holds migration status p r.1.0
        → RanHolds migration status (stored (logged update) count execute next p r)
    stored-Holds next ih p (ok _, state) h = ih p state h
    stored-Holds next ih p (err _, state) h = h
    stored-Holds next ih p (panic, state) h = h

    executed-Holds :
        (next : MigrationUpdateParams Time
          → Logged Time World
          → Ran (Logged Time World) Failure Time)
        → ((p : MigrationUpdateParams Time) (state : Logged Time World)
            → Holds migration status p state.0
            → RanHolds migration status (next p state))
        → (p : MigrationUpdateParams Time) (r : Outcome Failure (Unit {0}) × Logged Time World)
        → Holds migration status p r.1.0
        → RanHolds migration status (executed (logged update) count execute next p r)
    executed-Holds next ih p (ok _, state) h =
        stored-Holds next ih (count p) (logged update (count p) state) (counted p state.0 h)
    executed-Holds next ih p (err _, state) h = h
    executed-Holds next ih p (panic, state) h = h

    pub in_order-Holds :
        (steps : List Step) (p : MigrationUpdateParams Time) (state : Logged Time World)
        → Holds migration status p state.0
        → RanHolds migration status (in_order (logged update) count execute steps p state)
    unfolding in_order
    in_order-Holds [] p state h = h
    in_order-Holds (s ∷ []) p state h = subst (Holds migration status p) (sym (silent s state)) h
    in_order-Holds (s ∷ t ∷ rest) p state h =
        executed-Holds (in_order (logged update) count execute (t ∷ rest))
          (in_order-Holds (t ∷ rest)) p (execute s state)
          (subst (Holds migration status p) (sym (silent s state)) h)
