-- ===== src/Engine/Checks.antt =====
-- The checks for destructive changes: migration-engine/connectors/migration-connector/src/
-- destructive_changes_checker.rs. What a connector checks is its own.
use prisma_engines.Prelude.{String, not, Bool, Option, none, some, List, [], ◌∷◌, ◌++◌, map}
use prisma_engines.Engine.Effects.{Effect, pure}
use prisma_engines.Sql.Steps.{no_entries}

pub record MigrationWarning : Type 0 where
  pub description : String

pub record MigrationError : Type 0 where
  pub tpe : String
  pub description : String
  pub field : Option String

pub record UnexecutableMigration : Type 0 where
  pub description : String

pub record DestructiveChangeDiagnostics : Type 0 where
  pub errors : List MigrationError
  pub warnings : List MigrationWarning
  pub unexecutable_migrations : List UnexecutableMigration

unfoldable pub DestructiveChangeDiagnostics_new : DestructiveChangeDiagnostics
DestructiveChangeDiagnostics_new = record {
  errors = [];
  warnings = [];
  unexecutable_migrations = [];
}

unfoldable pub add_warning :
    DestructiveChangeDiagnostics → Option MigrationWarning → DestructiveChangeDiagnostics
add_warning diagnostics none = diagnostics
add_warning diagnostics (some warning) = record diagnostics {
  warnings = diagnostics.warnings ++ warning ∷ [];
}

unfoldable pub has_warnings : DestructiveChangeDiagnostics → Bool
has_warnings diagnostics = not (no_entries diagnostics.warnings)

unfoldable pub warn_about_unexecutable_migrations :
    DestructiveChangeDiagnostics → DestructiveChangeDiagnostics
warn_about_unexecutable_migrations diagnostics = record diagnostics {
  warnings =
      diagnostics.warnings
      ++ map (λ unexecutable. record { description = unexecutable.description })
          diagnostics.unexecutable_migrations;
}

module _ (World Failure DatabaseMigration : Type 0) where
  pub record DestructiveChangesChecker : Type 0 where
    pub check : DatabaseMigration → Effect World Failure DestructiveChangeDiagnostics
    pub check_unapply : DatabaseMigration → Effect World Failure DestructiveChangeDiagnostics

unfoldable pub EmptyDestructiveChangesChecker :
    {World Failure DatabaseMigration : Type 0}
    → DestructiveChangesChecker World Failure DatabaseMigration
EmptyDestructiveChangesChecker = record {
  check = λ _. pure DestructiveChangeDiagnostics_new;
  check_unapply = λ _. pure DestructiveChangeDiagnostics_new;
}
