-- ===== src/Engine/StatusCodes.antt =====
-- The texts by which a status is stored:
-- migration-engine/connectors/migration-connector/src/migration_persistence.rs.
use mathlib.Core.Logic.{◌↔◌}
use prisma_engines.Prelude.{String, ◌≡◌, refl, ok, eq_iff, arith, ap, ◌∙◌}
use prisma_engines.Engine.MigrationStatus.{MigrationStatus, code, from_str}

module _ (Failure : Type 0) where
  from_str-code :
      (status : MigrationStatus) → from_str {Failure = Failure} (code status) ≡ ok status
  unfolding from_str code
  from_str-code MigrationStatus.pending = refl
  from_str-code _ = refl

  code_of_from_str :
      (status : MigrationStatus) (s : String)
      → from_str {Failure = Failure} s ≡ ok status
      → s ≡ code status
  unfolding from_str code
  code_of_from_str status s h = ground (
    arith,
    eq_iff s "Pending",
    eq_iff s "MigrationInProgress",
    eq_iff s "MigrationSuccess",
    eq_iff s "MigrationFailure",
    eq_iff s "RollingBack",
    eq_iff s "RollbackSuccess",
    eq_iff s "RollbackFailure",
  )

  -- A text is read as a status just where it is the code of that status.
  pub from_str-iff-code :
      (status : MigrationStatus) (s : String)
      → (from_str {Failure = Failure} s ≡ ok status) ↔ (s ≡ code status)
  from_str-iff-code status s =
      (code_of_from_str status s, λ e. ap (from_str {Failure = Failure}) e ∙ from_str-code status)
